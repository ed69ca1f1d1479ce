-- ===== src/Notify/Channels.antt =====
-- arm/notifications/channels/{apprise,webhook,bash}.py and url_safety.py: the senders. What leaves
-- the process (apprise, httpx, the resolver, the file system and the script) is a parameter.
pub mod Markers
pub mod Guarded
use automatic_ripping_machin.Common.{
  any, ltb, leb, ◌==◌, if◌then◌else◌, str_eq, is_empty, contains, truncate, cat, show, ℕ, ◌+◌, ◌-◌,
  ◌*◌, ◌/◌, ◌%◌, ◌^◌, ◌≤◌, ◌<◌, String, ◌≡◌, ◌∙◌, ◌≡⟨◌⟩◌, ◌∎, ◌≢◌, ◌↔◌, ◌⊎◌, inl, inr, Bool, true,
  false, not, ◌&&◌, ◌||◌, Option, none, some, List, [], ◌∷◌, ◌++◌,
}

-- What a sender or `_render_and_send` does: it returns `(ok, error)`, or raises an exception, whose
-- text is given; `raised_template` is for TemplateRenderError.
pub data Attempt : Type 0 where
  returned : Bool → Option String → Attempt
  raised_template : String → Attempt
  raised : String → Attempt

-- `http_error` is for httpx.HTTPError, `post_raised` for any other exception.
pub data HttpReply : Type 0 where
  answered : (status : ℕ) (text : String) → HttpReply
  http_error : String → HttpReply
  post_raised : String → HttpReply

pub record Request : Type 0 where
  pub url : String
  pub content : String
  pub headers : List (String × String)

pub data NotifyReply : Type 0 where
  notified : Bool → NotifyReply
  apprise_raised : String → NotifyReply

pub data ScriptRun : Type 0 where
  exited : (returncode : ℕ) (stderr : String) → ScriptRun
  -- the return code is the signal's number, negated
  signalled : (signal : ℕ) (stderr : String) → ScriptRun
  timed_out : ScriptRun
  run_raised : String → ScriptRun

pub data Resolved : Type 0 where
  addresses : List String → Resolved
  not_resolved : Resolved
  -- an exception that is no socket.gaierror, as of a port or a host that cannot be read
  resolve_raised : String → Resolved

-- The parts of a URL that `urlparse` reads.
pub record ParsedUrl : Type 0 where
  pub scheme : String
  pub hostname : String

-- The properties of an address that `ipaddress` tells.
pub record IpAddress : Type 0 where
  pub is_private : Bool
  pub is_loopback : Bool
  pub is_link_local : Bool
  pub is_reserved : Bool
  pub is_multicast : Bool
  pub is_unspecified : Bool

pub record Outside : Type 0 where
  -- or the text of its ValueError
  pub urlparse : String → ParsedUrl ⊎ String
  -- `socket.getaddrinfo` of the host and `parsed.port`
  pub resolve : ParsedUrl → Resolved
  pub ip_address : String → IpAddress
  pub lower : String → String
  pub hmac_sha256 : String → String → String
  pub post : Request → HttpReply
  pub apprise_add : String → Bool
  pub apprise_notify : String → String → String → NotifyReply
  pub is_file : String → Bool
  pub is_executable : String → Bool
  pub run_script : String → String → String → List (String × String) → ScriptRun

-- `d[key] = value` on a dictionary.
pub set_key : String → String → List (String × String) → List (String × String)
set_key k v [] = (k, v) ∷ []
set_key k v ((j, w) ∷ m) = if str_eq j k then (k, v) ∷ m else (j, w) ∷ set_key k v m

pub update_dict : List (String × String) → List (String × String) → List (String × String)
update_dict m [] = m
update_dict m ((k, v) ∷ more) = update_dict (set_key k v m) more

unfoldable pub is_terminal_status : ℕ → Bool
is_terminal_status code = if code == 429 then false else leb 400 code && ltb code 500

abbrev flag_text : Bool → String
flag_text true = "true"
flag_text false = "false"

unfoldable pub all_public : (String → Bool) → List String → Bool
all_public p [] = true
all_public p (a ∷ more) = p a && all_public p more

abbrev is_nil {ℓ} : {A : Type ℓ} → List A → Bool
is_nil [] = true
is_nil (_ ∷ _) = false

-- `assert_public_http_url` returns, raises UnsafeUrlError, or another exception.
pub data Guard : Type 0 where
  accepted : Guard
  unsafe : String → Guard
  guard_raised : String → Guard

module _ (o : Outside) where
  open o use {urlparse, resolve, ip_address, lower}

  unfoldable pub addr_is_public : String → Bool
  addr_is_public addr =
      let ip = ip_address addr in
      not (
        ip.is_private || ip.is_loopback || ip.is_link_local || ip.is_reserved || ip.is_multicast
        || ip.is_unspecified)

  unfoldable pub check_addresses : String → Resolved → Guard
  unfolding all_public addr_is_public
  check_addresses host not_resolved = unsafe (cat ("could not resolve host: " ∷ host ∷ []))
  check_addresses host (resolve_raised exc) = guard_raised exc
  check_addresses host (addresses addrs) =
      if is_nil addrs
      then unsafe (cat ("could not resolve host: " ∷ host ∷ []))
      else if all_public addr_is_public addrs
      then accepted
      else unsafe (cat ("host " ∷ host ∷ " resolves to a non-public address" ∷ []))

  unfoldable pub check_url : ParsedUrl ⊎ String → Guard
  unfolding check_addresses
  check_url (inr exc) = guard_raised exc
  check_url (inl parsed) =
      let scheme = lower parsed.scheme in
      if not (str_eq scheme "http" || str_eq scheme "https")
      then unsafe "URL must use http or https"
      else if is_empty parsed.hostname
      then unsafe "URL has no host"
      else check_addresses parsed.hostname (resolve parsed)

  unfoldable pub assert_public_http_url : String → Guard
  unfolding check_url
  assert_public_http_url url = check_url (urlparse url)

  -- The signature is added only for a secret that is not empty.
  signed : Option String → String → List (String × String) → List (String × String)
  unfolding set_key
  signed none body headers = headers
  signed (some secret) body headers =
      if is_empty secret
      then headers
      else set_key "X-ARM-Signature" (cat ("sha256=" ∷ o.hmac_sha256 secret body ∷ [])) headers

  unfoldable pub webhook_reply : HttpReply → Attempt
  webhook_reply (post_raised exc) = raised exc
  webhook_reply (http_error exc) =
      returned false (some (cat ("network error: " ∷ exc ∷ " terminal=false" ∷ [])))
  webhook_reply (answered code text) =
      if leb 200 code && ltb code 300
      then returned true none
      else returned false (
          some (
            cat (
              "HTTP "
              ∷ show code
              ∷ ": "
              ∷ truncate 200 text
              ∷ " terminal="
              ∷ flag_text (is_terminal_status code)
              ∷ [])))

  unfoldable pub request_of : String → String → Option String → List (String × String) → Request
  unfolding signed update_dict set_key
  request_of url body shared_secret headers = record {
    url = url;
    content = body;
    headers =
        signed shared_secret body (update_dict (("Content-Type", "application/json") ∷ []) headers);
  }

  unfoldable pub post_guarded : Request → Guard → Attempt × List Request
  unfolding webhook_reply
  post_guarded request (unsafe exc) =
      (returned false (some (cat ("unsafe webhook URL: " ∷ exc ∷ " terminal=true" ∷ []))), [])
  post_guarded request (guard_raised exc) = (raised exc, [])
  post_guarded request accepted = (webhook_reply (o.post request), request ∷ [])

  -- What it returns or raises, and the requests that it posts.
  unfoldable pub send_webhook :
      String → String → Option String → List (String × String) → Attempt × List Request
  unfolding assert_public_http_url request_of post_guarded
  send_webhook url body shared_secret headers =
      post_guarded (request_of url body shared_secret headers) (assert_public_http_url url)

  apprise_reply : NotifyReply → Attempt
  apprise_reply (notified true) = returned true none
  apprise_reply (notified false) =
      returned false (some "apprise.notify() returned False (transient)")
  apprise_reply (apprise_raised exc) = returned false (some exc)

  unfoldable pub send_apprise : String → String → String → Attempt
  unfolding apprise_reply
  send_apprise url title body =
      if o.apprise_add url
      then apprise_reply (o.apprise_notify url title body)
      else returned false (some (cat ("apprise rejected URL (likely malformed): " ∷ url ∷ [])))

  script_failed : String → String → Attempt
  script_failed returncode stderr = returned false (
      some (
        cat (
          "bash script exit code "
          ∷ returncode
          ∷ ": "
          ∷ truncate 200 stderr
          ∷ " terminal=true"
          ∷ [])))

  unfoldable pub script_reply : String → ScriptRun → Attempt
  unfolding script_failed
  script_reply script_path (run_raised exc) = raised exc
  script_reply script_path timed_out =
      returned false
        (some (cat ("bash script timeout after 30s: " ∷ script_path ∷ " terminal=true" ∷ [])))
  script_reply script_path (exited code stderr) =
      if code == 0 then returned true none else script_failed (show code) stderr
  script_reply script_path (signalled signal stderr) =
      script_failed (cat ("-" ∷ show signal ∷ [])) stderr

  unfoldable pub send_bash : String → String → String → List (String × String) → Attempt
  unfolding script_reply
  send_bash script_path title body env_vars =
      if not (o.is_file script_path)
      then returned false
          (some (cat ("bash script not found: " ∷ script_path ∷ " terminal=true" ∷ [])))
      else if not (o.is_executable script_path)
      then returned false
          (some (cat ("bash script not executable: " ∷ script_path ∷ " terminal=true" ∷ [])))
      else script_reply script_path (o.run_script script_path title body env_vars)

-- `_parse_terminal_flag` of the dispatcher.
unfoldable pub parse_terminal_flag : String → Bool
parse_terminal_flag error = contains error "terminal=true"
