-- ===== src/Ripper/Music/Final.antt =====
-- The tracks after the rip of an audio disc.
use automatic_ripping_machin.Common.{
  All, if◌then◌else◌, is_empty, ℕ, String, ◌≡◌, refl, ap, ap₂, ◌∙◌, Bool, true, false, or-true,
  Option, none, some, List, [], ◌∷◌, arith,
}
use automatic_ripping_machin.Ripper.Music.{
  Classes, Phases, add, see, Track, is_success, advance, among, apply_phase, apply_track_phases,
  Event, output, stalled, rstrip_newline,
}

-- The lines that are read before the output ends.
abbrev pub printed : List Event → List String
printed [] = []
printed (stalled ∷ es) = []
printed (output raw now commits ∷ es) =
    let rest = printed es in
    if is_empty raw
    then []
    else if is_empty (rstrip_newline raw)
    then rest
    else rstrip_newline raw ∷ rest

abbrev pub see_all : Classes → List String → Phases → Phases
see_all k [] s = s
see_all k (line ∷ lines) s = see_all k lines (see k line s)

abbrev pub is_output : Event → Bool
is_output (output _ _ _) = true
is_output stalled = false

-- What is seen at first is seen later.
pub record Sub (s t : Phases) : Type 0 where
  pub grabbing : (n : ℕ) → among n s.grabbing ≡ true → among n t.grabbing ≡ true
  pub encoding : (n : ℕ) → among n s.encoding ≡ true → among n t.encoding ≡ true
  pub tagging : (n : ℕ) → among n s.tagging ≡ true → among n t.tagging ≡ true

pub Sub-refl : (s : Phases) → Sub s s
Sub-refl s = record { grabbing = λ n h. h; encoding = λ n h. h; tagging = λ n h. h }

pub Sub-trans : (s t u : Phases) → Sub s t → Sub t u → Sub s u
Sub-trans s t u h k = record {
  grabbing = λ n e. k.grabbing n (h.grabbing n e);
  encoding = λ n e. k.encoding n (h.encoding n e);
  tagging = λ n e. k.tagging n (h.tagging n e);
}

among-add : (o : Option ℕ) (ns : List ℕ) (n : ℕ) → among n ns ≡ true → among n (add o ns) ≡ true
among-add none ns n h = h
among-add (some m) ns n h = rw h (or-true _)

pub Sub-see : (k : Classes) (line : String) (s : Phases) → Sub s (see k line s)
unfolding see
Sub-see k line s = record {
  grabbing = among-add _ s.grabbing;
  encoding = among-add _ s.encoding;
  tagging = among-add _ s.tagging;
}

-- A later update gives what it would have given without the one before it.
advance-advance :
    (g e s g' e' s' : Bool) (t : Track)
    → (g ≡ true → g' ≡ true)
    → (e ≡ true → e' ≡ true)
    → (s ≡ true → s' ≡ true)
    → is_success t.status ≡ false
    → advance g' e' s' (advance g e s t) ≡ advance g' e' s' t
advance-advance g e true g' e' false t hg he hs h = cc (hs refl)
advance-advance g e true g' e' true t hg he hs h = rw h refl
advance-advance g true false g' false s' t hg he hs h = cc (he refl)
advance-advance g true false g' true true t hg he hs h = rw h refl
advance-advance g true false g' true false t hg he hs h = refl
advance-advance true false false false e' s' t hg he hs h = cc (hg refl)
advance-advance true false false true e' true t hg he hs h = rw h refl
advance-advance true false false true true false t hg he hs h = refl
advance-advance true false false true false false t hg he hs h = refl
advance-advance false false false g' e' s' t hg he hs h = refl

apply_phase-apply_phase :
    (s u : Phases) (n : Option ℕ) (t : Track)
    → Sub s u
    → is_success t.status ≡ false
    → apply_phase u n (apply_phase s n t) ≡ apply_phase u n t
apply_phase-apply_phase s u none t h k = refl
apply_phase-apply_phase s u (some n) t h k =
    advance-advance (among n s.grabbing) (among n s.encoding) (among n s.tagging)
      (among n u.grabbing) (among n u.encoding) (among n u.tagging) t (h.grabbing n) (h.encoding n)
      (h.tagging n) k

advance-number : (g e s : Bool) (t : Track) → (advance g e s t).track_number ≡ t.track_number
advance-number g e s t = ground arith

apply_phase-number :
    (s : Phases) (n : Option ℕ) (t : Track) → (apply_phase s n t).track_number ≡ t.track_number
apply_phase-number s none t = refl
apply_phase-number s (some n) t =
    advance-number (among n s.grabbing) (among n s.encoding) (among n s.tagging) t

pub apply_track_phases-twice :
    (s u : Phases) (ts : List Track)
    → Sub s u
    → All (λ t. is_success t.status ≡ false) ts
    → apply_track_phases u (apply_track_phases s ts) ≡ apply_track_phases u ts
unfolding apply_track_phases
apply_track_phases-twice s u [] h k = refl
apply_track_phases-twice s u (t ∷ ts) h k =
    ap₂ ◌∷◌
      (ap (λ n. apply_phase u n (apply_phase s t.track_number t))
          (apply_phase-number s t.track_number t)
        ∙ apply_phase-apply_phase s u t.track_number t h k.0)
      (apply_track_phases-twice s u ts h k.1)
