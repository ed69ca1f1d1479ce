-- ===== src/Notify/Channels/Markers.antt =====
-- The marker `terminal=true` that a sender's error text carries to the dispatcher.
use automatic_ripping_machin.Common.{
  ltb, leb, ◌==◌, if_ind, starts_with, contains, truncate, cat, contains-append_right,
  contains-append_left, ℕ, ◌≤◌, ◌<◌, String, ◌≡◌, refl, ◌≢◌, ◌⊎◌, inl, inr, true, false, not, ◌&&◌,
  none, some, List, [], ◌∷◌, arith,
}
use automatic_ripping_machin.Notify.Channels.{
  Outside, Attempt, returned, raised, answered, ScriptRun, exited, signalled, timed_out, run_raised,
  is_terminal_status, webhook_reply, script_reply, send_bash, parse_terminal_flag,
}

-- The send failed, with a text that the dispatcher takes as terminal.
abbrev pub FailsForGood : Attempt → Type 0
FailsForGood a = (e : String) × (a ≡ returned false (some e)) × (parse_terminal_flag e ≡ true)

marked_end :
    (a b c d : String) → parse_terminal_flag (cat (a ∷ b ∷ c ∷ d ∷ " terminal=true" ∷ [])) ≡ true
unfolding parse_terminal_flag cat
marked_end a b c d = contains-append_right a _ "terminal=true" (
    contains-append_right b _ "terminal=true" (
      contains-append_right c _ "terminal=true" (
        contains-append_right d " terminal=true" "terminal=true"
          (unfold contains starts_with in refl))))

marked_status :
    (a b c d : String)
    → parse_terminal_flag (cat (a ∷ b ∷ c ∷ d ∷ " terminal=" ∷ "true" ∷ [])) ≡ true
unfolding cat
marked_status a b c d = unfold cat in marked_end a b c d

pub marked_short : (a b : String) → parse_terminal_flag (cat (a ∷ b ∷ " terminal=true" ∷ [])) ≡ true
unfolding parse_terminal_flag cat
marked_short a b =
    contains-append_right a _ "terminal=true" (
      contains-append_right b " terminal=true" "terminal=true"
        (unfold contains starts_with in refl))

marked_text :
    (a b c d e f : String)
    → contains d "terminal=true" ≡ true
    → parse_terminal_flag (cat (a ∷ b ∷ c ∷ d ∷ e ∷ f ∷ [])) ≡ true
unfolding parse_terminal_flag cat
marked_text a b c d e f h = contains-append_right a _ "terminal=true" (
    contains-append_right b _ "terminal=true"
      (contains-append_right c _ "terminal=true" (contains-append_left d _ "terminal=true" h)))

terminal_status : (code : ℕ) → 400 ≤ code → code < 500 → code ≢ 429 → is_terminal_status code ≡ true
unfolding is_terminal_status
terminal_status code a b c = ground arith

server_status : (code : ℕ) → 500 ≤ code → is_terminal_status code ≡ false
unfolding is_terminal_status
server_status code a = ground arith

success : (code : ℕ) → 200 ≤ code → code < 300 → (leb 200 code && ltb code 300) ≡ true
success code a b = ground arith

failure : (code : ℕ) → 300 ≤ code → (leb 200 code && ltb code 300) ≡ false
failure code a = ground arith

module _ (o : Outside) where
  -- A reply of the webhook's server: 2xx is a success, a 4xx but 429 fails for good.
  webhook_reply_status :
      (code : ℕ) (text : String)
      → (200 ≤ code → code < 300 → webhook_reply o (answered code text) ≡ returned true none)
        × (400 ≤ code
            → code < 500
            → code ≢ 429
            → FailsForGood (webhook_reply o (answered code text)))
  unfolding webhook_reply
  webhook_reply_status code text = (
    λ a b. rw (success code a b) refl,
    λ a b c.
        rw (failure code (omega arith))
          (rw (terminal_status code a b c) (_, refl, marked_status _ _ _ _)),
  )

  -- A server error is taken as terminal when the first 200 characters of its text hold the marker.
  server_marks_itself :
      (code : ℕ) (text : String)
      → 500 ≤ code
      → contains (truncate 200 text) "terminal=true" ≡ true
      → (is_terminal_status code ≡ false) × FailsForGood (webhook_reply o (answered code text))
  unfolding webhook_reply
  server_marks_itself code text h k =
      (server_status code h, rw (failure code (omega arith)) (_, refl, marked_text _ _ _ _ _ _ k))

  -- A success, a failure for good, or an exception.
  abbrev Decided : Attempt → Type 0
  Decided a = (a ≡ returned true none) ⊎ FailsForGood a ⊎ ((e : String) × (a ≡ raised e))

  script_reply_marks : (path : String) (run : ScriptRun) → Decided (script_reply o path run)
  unfolding script_reply
  script_reply_marks path timed_out = inr (inl (_, refl, marked_short _ _))
  script_reply_marks path (run_raised exc) = inr (inr (exc, refl))
  script_reply_marks path (signalled signal stderr) = inr (inl (_, refl, marked_end _ _ _ _))
  script_reply_marks path (exited code stderr) =
      if_ind Decided (code == 0) (λ _. inl refl) (λ _. inr (inl (_, refl, marked_end _ _ _ _)))

  -- A script either succeeds or fails for good, or the sender raises: no failure that it returns
  -- is to be retried.
  send_bash_decides :
      (path title body : String) (env : List (String × String))
      → Decided (send_bash o path title body env)
  unfolding send_bash
  send_bash_decides path title body env =
      if_ind Decided (not (o.is_file path)) (λ _. inr (inl (_, refl, marked_short _ _)))
        (λ _.
          if_ind Decided (not (o.is_executable path)) (λ _. inr (inl (_, refl, marked_short _ _)))
            (λ _. script_reply_marks path (o.run_script path title body env)))
