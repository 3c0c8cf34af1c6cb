-- ===== src/Callback/Accepted.antt =====
-- src/api/services/mod.rs: what is known of a callback URL that was accepted.
use mathlib.Core.List.{reverse, reverse-append, reverse-reverse}
use agent_execution_platform.Prelude.{
  ◌≢◌, ◌⊎◌, List, [], ◌∷◌, ◌++◌, map, ap, ◌∙◌, ◌==◌, ◌≡◌, refl, sym, inl, inr, Bool, true, false,
  not, ◌||◌, Option, none, some, ltb, Bool-cases, arith,
}
use agent_execution_platform.Prelude.Text.{
  Text, text, text_eq, text_eq_iff, is_empty, byte_len, trim, ascii_lower, starts_with,
}
use agent_execution_platform.Prelude.Results.{ok, or_err, fail_if_ok, bind_ok, ok_inj}
use agent_execution_platform.Callback.Ranges.{is_public, is_non_public-is_public}
use agent_execution_platform.Callback.{
  IpAddr, ends_with, unbracketed_from, Url, UrlParser, invalid_url, missing_host, is_none, is_local,
  unbracketed, names_non_public, check_url, validate_callback_url,
}

-- Whatever the case of its letters, the host is not localhost and no name that ends in .localhost.
pub record IsNotLocal (host : Text) : Type 0 where
  pub not_localhost : map ascii_lower host ≢ text "localhost"
  pub not_below : (front : Text) → map ascii_lower host ≢ front ++ text ".localhost"

abbrev bracketed : Text → Text
bracketed inner = b'[' ∷ (inner ++ b']' ∷ [])

-- What of a host may be an address: what stands between brackets, or the host that has none.
abbrev pub Spells : Text → Text → Type 0
Spells host inner =
    (host ≡ bracketed inner) ⊎ ((host ≡ inner) × ((between : Text) → host ≢ bracketed between))

-- If it is an address, one that may be called back.
abbrev pub Reachable : Option IpAddr → Type 0
Reachable none = Unit
Reachable (some ip) = is_public ip ≡ true

-- A URL that is fit to be called back.
pub record IsPublic (urls : UrlParser) (parsed : Url) : Type 0 where
  pub https : parsed.scheme ≡ text "https"
  pub no_user : parsed.username ≡ []
  pub no_password : parsed.password ≡ none
  pub no_fragment : parsed.fragment ≡ none
  pub host :
      (host inner : Text) × (parsed.host_str ≡ some host)
      × IsNotLocal host
      × Spells host inner
      × Reachable (urls.parse_ip inner)

starts_with-prefix : (p s : Text) → starts_with p (p ++ s) ≡ true
starts_with-prefix [] s = refl
starts_with-prefix (c ∷ p) s = ground (arith, starts_with-prefix p s)

ends_with-suffix : (p front : Text) → ends_with p (front ++ p) ≡ true
ends_with-suffix p front =
    rw (reverse-append front p) (starts_with-prefix (reverse p) (reverse front))

not_local : (host : Text) → is_local host ≡ false → IsNotLocal host
not_local host h = record {
  not_localhost = λ e.
      let same = (text_eq_iff (map ascii_lower host) (text "localhost")).1 e in
      absurd (ground arith);
  not_below = λ front e.
      let ends : ends_with (text ".localhost") (map ascii_lower host) ≡ true =
        rw e (ends_with-suffix (text ".localhost") front) in
      absurd (ground arith);
}

tail_eq : (s t : Text) → ◌≡◌ {A = Text} (b'[' ∷ s) (b'[' ∷ t) → s ≡ t
tail_eq s t h = ground arith

reversed : (s between : Text) → s ≡ between ++ b']' ∷ [] → reverse s ≡ b']' ∷ reverse between
reversed s between e = ap reverse e ∙ reverse-append between (b']' ∷ [])

spelled_from : (s r : Text) → reverse s ≡ r → Spells (b'[' ∷ s) (unbracketed_from (b'[' ∷ s) r)
spelled_from s [] e =
    inr (refl, λ between h. let last = reversed s between (tail_eq s _ h) in absurd (ground arith))
spelled_from s (d ∷ t) e = elim (Bool-cases (d == b']')) [
  | inl closed ↦
      let same : d ≡ b']' = ground arith in
      let parts : s ≡ reverse t ++ b']' ∷ [] =
        sym (reverse-reverse s)
        ∙ ap reverse e
        ∙ reverse-append (d ∷ []) t
        ∙ ap (λ c. reverse t ++ c ∷ []) same in
      rw closed (inl (ap (λ u. b'[' ∷ u) parts))
  | inr unclosed ↦ rw unclosed (
      inr
        (refl, λ between h. let last = reversed s between (tail_eq s _ h) in absurd (ground arith)))
]

spelled : (host : Text) → Spells host (unbracketed host)
spelled [] = inr (refl, λ between h. absurd (ground arith))
spelled (c ∷ s) = elim (Bool-cases (c == b'[')) [
  | inl opened ↦ let same : c ≡ b'[' = ground arith in rw same (spelled_from s (reverse s) refl)
  | inr plain ↦ rw plain (inr (refl, λ between h. absurd (ground arith)))
]

nothing : {A : Type 0} (o : Option A) → is_none o ≡ true → o ≡ none
nothing none h = refl
nothing (some a) h = absurd (ground arith)

empty : {A : Type 0} (s : List A) → is_empty s ≡ true → s ≡ []
empty [] h = refl
empty (a ∷ s) h = absurd (ground arith)

not-false : (b : Bool) → not b ≡ false → b ≡ true
not-false true h = refl
not-false false h = absurd (ground arith)

reachable :
    (urls : UrlParser) (t : Text)
    → names_non_public (urls.parse_ip t) ≡ false
    → Reachable (urls.parse_ip t)
reachable urls t h = go (urls.parse_ip t) refl h
  where
    go : (o : Option IpAddr) → urls.parse_ip t ≡ o → names_non_public o ≡ false → Reachable o
    go none e h = tt
    go (some ip) e h =
        not-false (is_public ip) (sym (is_non_public-is_public ip (urls.in_range t ip e)) ∙ h)

neither-false : (a b : Bool) → (not a || not b) ≡ false → (a ≡ true) × (b ≡ true)
neither-false true true h = (refl, refl)
neither-false true false h = absurd (ground arith)
neither-false false b h = absurd (ground arith)

or_err-ok : {E A : Type 0} (o : Option A) (e : E) (a : A) → or_err o e ≡ ok a → o ≡ some a
or_err-ok (some b) e a h = ground arith
or_err-ok none e a h = absurd (ground arith)

module _ (urls : UrlParser) where
  check_url-IsPublic :
      (trimmed href : Text)
      → check_url urls trimmed ≡ ok href
      → (parsed : Url) × (urls.parse trimmed ≡ some parsed)
        × (href ≡ parsed.href)
        × IsPublic urls parsed
  unfolding check_url
  check_url-IsPublic trimmed href h =
      let (p1, h1) = fail_if_ok (ltb 2048 (byte_len trimmed)) _ _ h in
      let (parsed, e, h2) = bind_ok (or_err (urls.parse trimmed) invalid_url) _ h1 in
      let (p3, h3) = fail_if_ok (not (text_eq parsed.scheme (text "https"))) _ _ h2 in
      let (p4, h4) =
        fail_if_ok (not (is_empty parsed.username) || not (is_none parsed.password)) _ _ h3 in
      let (p5, h5) = fail_if_ok (not (is_none parsed.fragment)) _ _ h4 in
      let (host, e6, h6) = bind_ok (or_err parsed.host_str missing_host) _ h5 in
      let (p7, h7) = fail_if_ok (is_local host) _ _ h6 in
      let (p8, h8) = fail_if_ok (names_non_public (urls.parse_ip (unbracketed host))) _ _ h7 in
      let (no_user, no_password) =
        neither-false (is_empty parsed.username) (is_none parsed.password) p4 in
      (
        parsed,
        or_err-ok (urls.parse trimmed) invalid_url parsed e,
        sym (ok_inj parsed.href href h8),
        record {
          https =
              (text_eq_iff parsed.scheme (text "https")).0
                (not-false (text_eq parsed.scheme (text "https")) p3);
          no_user = empty parsed.username no_user;
          no_password = nothing parsed.password no_password;
          no_fragment = nothing parsed.fragment (not-false (is_none parsed.fragment) p5);
          host = (
            host,
            unbracketed host,
            or_err-ok parsed.host_str missing_host host e6,
            not_local host p7,
            spelled host,
            reachable urls (unbracketed host) p8,
          );
        },
      )

  -- A callback URL that is accepted and kept is what the parser makes of the trimmed text. It is of
  -- HTTPS, without credentials and fragment. Its host, in any case, is not localhost and does not
  -- end in .localhost; and if the host, without the brackets around it, is an address, then an IPv4
  -- address is in none of the thirteen blocks, nor is the one that an IPv6 address stands for, and
  -- any other IPv6 address is outside fc00::/7, fe80::/10, ff00::/8 and 2001:db8::/32.
  pub validate_callback_url-IsPublic :
      (u href : Text)
      → validate_callback_url urls (some u) ≡ ok (some href)
      → (parsed : Url) × (urls.parse (trim u) ≡ some parsed)
        × (href ≡ parsed.href)
        × IsPublic urls parsed
  unfolding validate_callback_url
  validate_callback_url-IsPublic u href h = elim (Bool-cases (is_empty (trim u))) [
    | inl blank ↦ absurd (ground arith)
    | inr full ↦ check_url-IsPublic (trim u) href (ground arith)
  ]
