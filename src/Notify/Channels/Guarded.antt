-- ===== src/Notify/Channels/Guarded.antt =====
-- The guard against URLs that are not public, before a webhook is posted.
use automatic_ripping_machin.Common.{
  All, if_ind, str_eq, is_empty, String, ◌≡◌, refl, sym, ◌∙◌, ◌⊎◌, inl, inr, Bool, true, false, not,
  ◌||◌, or-true, Option, List, [], ◌∷◌, arith,
}
use automatic_ripping_machin.Notify.Channels.{
  Outside, Attempt, raised, Resolved, addresses, not_resolved, resolve_raised, ParsedUrl, IpAddress,
  Request, Guard, accepted, unsafe, guard_raised, addr_is_public, all_public, check_addresses,
  check_url, assert_public_http_url, request_of, post_guarded, webhook_reply, send_webhook,
}
use automatic_ripping_machin.Notify.Channels.Markers.{FailsForGood, marked_short}

-- An address of no special range.
pub record IsPublic (ip : IpAddress) : Type 0 where
  pub no_private : ip.is_private ≡ false
  pub no_loopback : ip.is_loopback ≡ false
  pub no_link_local : ip.is_link_local ≡ false
  pub no_reserved : ip.is_reserved ≡ false
  pub no_multicast : ip.is_multicast ≡ false
  pub no_unspecified : ip.is_unspecified ≡ false

either : {a b : Bool} → (a ≡ true) ⊎ (b ≡ true) → a || b ≡ true
either (inl h) = rw h refl
either (inr h) = rw h (or-true _)

of_either : (a b : Bool) → not (a || b) ≡ false → (a ≡ true) ⊎ (b ≡ true)
of_either true b h = inl refl
of_either false b h = inr (ground arith)

unaccepted : {exc : String} → unsafe exc ≡ accepted → ⊥
unaccepted h = cc

unaccepted_raise : {exc : String} → guard_raised exc ≡ accepted → ⊥
unaccepted_raise h = cc

module _ (o : Outside) where
  -- The URL can be read, its scheme is http or https, it has a host, and the host resolves, to
  -- public addresses only.
  pub record IsSafe (url : String) : Type 0 where
    pub parsed : ParsedUrl
    pub first : String
    pub more : List String
    pub readable : o.urlparse url ≡ inl parsed
    pub scheme :
        (str_eq (o.lower parsed.scheme) "http" ≡ true)
        ⊎ (str_eq (o.lower parsed.scheme) "https" ≡ true)
    pub host : is_empty parsed.hostname ≡ false
    pub resolved : o.resolve parsed ≡ addresses (first ∷ more)
    pub public : All (λ a. IsPublic (o.ip_address a)) (first ∷ more)

  addr_is_public-IsPublic : (a : String) → addr_is_public o a ≡ true → IsPublic (o.ip_address a)
  unfolding addr_is_public
  addr_is_public-IsPublic a h = record {
    no_private = ground arith;
    no_loopback = ground arith;
    no_link_local = ground arith;
    no_reserved = ground arith;
    no_multicast = ground arith;
    no_unspecified = ground arith;
  }

  IsPublic-addr_is_public : (a : String) → IsPublic (o.ip_address a) → addr_is_public o a ≡ true
  unfolding addr_is_public
  IsPublic-addr_is_public a h =
      rw
        (
          h.no_private, h.no_loopback, h.no_link_local, h.no_reserved, h.no_multicast,
          h.no_unspecified,
        )
        refl

  all_public-All :
      (xs : List String)
      → all_public (addr_is_public o) xs ≡ true
      → All (λ a. IsPublic (o.ip_address a)) xs
  unfolding all_public
  all_public-All [] h = tt
  all_public-All (x ∷ xs) h =
      (addr_is_public-IsPublic x (ground arith), all_public-All xs (ground arith))

  All-all_public :
      (xs : List String)
      → All (λ a. IsPublic (o.ip_address a)) xs
      → all_public (addr_is_public o) xs ≡ true
  unfolding all_public
  All-all_public [] h = refl
  All-all_public (x ∷ xs) h = rw (IsPublic-addr_is_public x h.0) (All-all_public xs h.1)

  -- A safe URL is accepted.
  IsSafe-accepted : (url : String) → IsSafe url → assert_public_http_url o url ≡ accepted
  unfolding assert_public_http_url check_url check_addresses
  IsSafe-accepted url h =
      rw (h.readable, either h.scheme, h.host, h.resolved, All-all_public _ h.public) refl

  module _ (url : String) (parsed : ParsedUrl) (readable : o.urlparse url ≡ inl parsed)
      (scheme : (str_eq (o.lower parsed.scheme) "http" ≡ true)
        ⊎ (str_eq (o.lower parsed.scheme) "https" ≡ true))
      (host : is_empty parsed.hostname ≡ false) where
    addresses-IsSafe :
        (r : Resolved)
        → o.resolve parsed ≡ r
        → check_addresses o parsed.hostname r ≡ accepted
        → IsSafe url
    unfolding check_addresses
    addresses-IsSafe not_resolved e h = absurd (unaccepted h)
    addresses-IsSafe (resolve_raised exc) e h = absurd (unaccepted_raise h)
    addresses-IsSafe (addresses []) e h = absurd (unaccepted h)
    addresses-IsSafe (addresses (a ∷ more)) e h =
        if_ind (λ v. v ≡ accepted → IsSafe url) (all_public (addr_is_public o) (a ∷ more))
          (λ k _. record {
            parsed = parsed;
            first = a;
            more = more;
            readable = readable;
            scheme = scheme;
            host = host;
            resolved = e;
            public = all_public-All (a ∷ more) k;
          })
          (λ _ c. absurd (unaccepted c)) h

  accepted-IsSafe : (url : String) → assert_public_http_url o url ≡ accepted → IsSafe url
  unfolding assert_public_http_url check_url
  accepted-IsSafe url h = go (o.urlparse url) refl h
    where
      go : (p : ParsedUrl ⊎ String) → o.urlparse url ≡ p → check_url o p ≡ accepted → IsSafe url
      go (inr exc) e h = absurd (unaccepted_raise h)
      go (inl parsed) e h =
          let web =
            str_eq (o.lower parsed.scheme) "http" || str_eq (o.lower parsed.scheme) "https" in
          if_ind (λ v. v ≡ accepted → IsSafe url) (not web) (λ _ c. absurd (unaccepted c))
            (λ w.
              if_ind (λ v. v ≡ accepted → IsSafe url) (is_empty parsed.hostname)
                (λ _ c. absurd (unaccepted c))
                (λ k. addresses-IsSafe url parsed e (of_either _ _ w) k (o.resolve parsed) refl))
            h

  refused :
      (url : String) (g : Guard)
      → assert_public_http_url o url ≡ g
      → (g ≡ accepted → ⊥)
      → ¬ IsSafe url
  refused url g e k h = k (sym e ∙ IsSafe-accepted url h)

  -- Where the URL is safe, one request to it is posted, and the result is what the reply to this
  -- request tells; where it is not, nothing is posted, and the send fails for good or raises.
  abbrev pub PostsSafely : String → String → Attempt × List Request → Type 0
  PostsSafely url body r =
      (IsSafe url
        × ((request : Request) × (request.url ≡ url)
            × (request.content ≡ body)
            × (r.1 ≡ request ∷ [])
            × (r.0 ≡ webhook_reply o (o.post request))))
      ⊎ (¬ IsSafe url × (r.1 ≡ []) × (FailsForGood r.0 ⊎ ((e : String) × (r.0 ≡ raised e))))

  -- Whatever the URL and the configuration are: the webhook is posted exactly where the URL can be
  -- read, has the scheme http or https and a host, and this host resolves, to addresses that are
  -- all public. Then one request to the URL with the body is posted, and its reply decides;
  -- otherwise nothing is posted, and the send fails for good or raises.
  pub send_webhook_guarded :
      (url body : String) (secret : Option String) (headers : List (String × String))
      → PostsSafely url body (send_webhook o url body secret headers)
  unfolding send_webhook post_guarded request_of
  send_webhook_guarded url body secret headers = go (assert_public_http_url o url) refl
    where
      go :
          (g : Guard)
          → assert_public_http_url o url ≡ g
          → PostsSafely url body (post_guarded o (request_of o url body secret headers) g)
      go accepted e = inl (accepted-IsSafe url e, (_, refl, refl, refl, refl))
      go (unsafe exc) e =
          inr (refused url (unsafe exc) e unaccepted, refl, inl (_, refl, marked_short _ _))
      go (guard_raised exc) e =
          inr (refused url (guard_raised exc) e unaccepted_raise, refl, inr (exc, refl))
