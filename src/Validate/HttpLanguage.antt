-- ===== src/Validate/HttpLanguage.antt =====
-- The language of the http links that src/validate.c accepts.
use cforum_upto.Base.{
  ℕ, ◌≡◌, ◌≢◌, refl, sym, ap, ◌∙◌, ◌⊎◌, inl, inr, ◌↔◌, Bool, true, false, Option-cases, Option,
  none, some, List, ◌++◌, if◌then◌else◌, drop, arith,
}
use cforum_upto.Str.{◌>>=◌}
use cforum_upto.Str.Equal.{IsCstring}
use cforum_upto.Validate.{after_scheme, scan, host, port}
use cforum_upto.Validate.Http.{
  http_scheme, https_scheme, behind_host, in_path, in_search, in_anchor, either_scheme, path,
  search, anchor, http_rest, is_valid_http_link,
}
use cforum_upto.Validate.Grammar.{
  Part, Describes, ◌then◌, then-Describes, Optional, optional-Describes, Behind, Text,
  scan-Describes, none-some, bind_lem, valid_iff,
}
use cforum_upto.Validate.Authority.{Host, host-Describes, Port, port-Describes, after_scheme_lem}

-- An anchor, which a strict check refuses.
abbrev pub Anchor : Bool → Part
Anchor true s r = ⊥
Anchor false s r = Behind (Text in_anchor) s r

-- Host, port, path, search path and anchor, in this order; all but the host may be missing.
abbrev pub HttpParts : (List ℕ → Option (List ℕ)) → Bool → Part
HttpParts idna strict =
    Host idna behind_host
    then Port
    then Optional b'/' (Text in_path)
    then Optional b'?' (Behind (Text in_search))
    then Optional b'#' (Anchor strict)

anchor-Describes :
    (strict : Bool)
    → Describes (λ s. if strict then none else scan in_anchor 0 (drop 1 s)) (Anchor strict)
anchor-Describes true s r = (λ e. none-some e, λ a. absurd a)
anchor-Describes false s r = scan-Describes in_anchor (drop 1 s) r

http_rest-Describes :
    (idna : List ℕ → Option (List ℕ)) (strict : Bool)
    → Describes (http_rest idna strict) (HttpParts idna strict)
unfolding http_rest path search anchor
http_rest-Describes idna strict =
    then-Describes (host idna behind_host) _ (Host idna behind_host) _
      (host-Describes idna behind_host)
      (then-Describes port _ Port _ port-Describes (
        then-Describes path _ (Optional b'/' (Text in_path)) _
          (optional-Describes b'/' (scan in_path 0) (Text in_path) (scan-Describes in_path))
          (then-Describes search (anchor strict) (Optional b'?' (Behind (Text in_search)))
            (Optional b'#' (Anchor strict))
            (optional-Describes b'?' (λ s. scan in_search 0 (drop 1 s)) (Behind (Text in_search))
              (λ s. scan-Describes in_search (drop 1 s)))
            (optional-Describes b'#' (λ s. if strict then none else scan in_anchor 0 (drop 1 s))
              (Anchor strict) (anchor-Describes strict)))))

-- The scheme, and then the parts.
abbrev pub HttpLink : (List ℕ → Option (List ℕ)) → Bool → List ℕ → Type 0
HttpLink idna strict link =
    (s : List ℕ) × ((link ≡ http_scheme ++ s) ⊎ (link ≡ https_scheme ++ s))
    × ((r : List ℕ) × HttpParts idna strict s r)

colon_s : (r s : List ℕ) → http_scheme ++ r ≢ https_scheme ++ s
colon_s r s e = ground arith

scheme_lem :
    (link s : List ℕ)
    → IsCstring link
    → (either_scheme (after_scheme http_scheme link) (after_scheme https_scheme link) ≡ some s)
      ↔ ((link ≡ http_scheme ++ s) ⊎ (link ≡ https_scheme ++ s))
scheme_lem link s k =
    let http = λ (r : List ℕ). after_scheme_lem http_scheme link r (ground arith) k (omega arith) in
    let https = after_scheme_lem https_scheme link s (ground arith) k (omega arith) in
    (
      λ e. elim (Option-cases (after_scheme http_scheme link)) [
        | inl n ↦
            inr (https.0 (sym (ap (λ o. either_scheme o (after_scheme https_scheme link)) n) ∙ e))
        | inr (r, is) ↦ inl (
            (http s).0
              (is ∙ sym (ap (λ o. either_scheme o (after_scheme https_scheme link)) is) ∙ e))
      ],
      λ d. elim d [
        | inl e ↦ rw ((http s).1 e) refl
        | inr e ↦ elim (Option-cases (after_scheme http_scheme link)) [
          | inl n ↦ rw n (https.1 e)
          | inr (r, is) ↦ absurd (colon_s r s (sym ((http r).0 is) ∙ e))
        ]
      ],
    )

-- is_valid_http_link accepts a link exactly if it is made up of `http://` or `https://`, a host
-- name that is_valid_hostname accepts, and, where they are there and in this order, a port, a path,
-- a search path and an anchor: a port is a colon and digits up to the end of the link or, if there
-- is a digit, up to a slash; the other parts are of the bytes that the code lists for each and of
-- escapes of two hexadecimal digits. A strict check refuses an anchor.
pub is_valid_http_link_iff :
    (idna : List ℕ → Option (List ℕ)) (link : List ℕ) (strict : Bool)
    → IsCstring link
    → (is_valid_http_link idna link strict ≡ true) ↔ HttpLink idna strict link
unfolding is_valid_http_link
is_valid_http_link_iff idna link strict k =
    let schemes = either_scheme (after_scheme http_scheme link) (after_scheme https_scheme link) in
    (
      λ e.
          let (r, bound) = (valid_iff (schemes >>= http_rest idna strict)).0 e in
          let (s, begin, rest) = (bind_lem schemes (http_rest idna strict) r).0 bound in
          (s, (scheme_lem link s k).0 begin, (r, (http_rest-Describes idna strict s r).0 rest)),
      λ (s, begin, (r, parts)). (valid_iff (schemes >>= http_rest idna strict)).1 (
        r,
        (bind_lem schemes (http_rest idna strict) r).1
            (s, (scheme_lem link s k).1 begin, (http_rest-Describes idna strict s r).1 parts),
      ),
    )
