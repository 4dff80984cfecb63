-- ===== src/Validate/HttpEnd.antt =====
-- The check of http links in src/validate.c leaves nothing of a link that it accepts.
use cforum_upto.Base.{
  ℕ, ◌≡◌, refl, sym, ◌∙◌, ◌⊎◌, inl, inr, Bool, true, false, Option, List, [], ◌∷◌, drop, arith,
}
use cforum_upto.Str.Equal.{first}
use cforum_upto.Validate.{one_of}
use cforum_upto.Validate.Http.{behind_host, in_path, in_search, in_anchor}
use cforum_upto.Validate.Grammar.{Part, Optional, Behind, Text, Stops}
use cforum_upto.Validate.Authority.{Digits, Begins}
use cforum_upto.Validate.HttpLanguage.{HttpParts, Anchor}

-- The link is at its end, or `ptr` is at one of the bytes.
abbrev At : List ℕ → List ℕ → Type 0
At bytes r = (r ≡ []) ⊎ (one_of bytes (first r) ≡ true)

abbrev question_hash : List ℕ
question_hash = b'?' ∷ b'#' ∷ []

Stops-in_path : (r : List ℕ) → Stops in_path r → At question_hash r
unfolding in_path one_of
Stops-in_path [] h = inl refl
Stops-in_path (c ∷ cs) h = inr (ground (arith, h.1))

Stops-in_search : (r : List ℕ) → Stops in_search r → At (b'#' ∷ []) r
unfolding in_search one_of
Stops-in_search [] h = inl refl
Stops-in_search (c ∷ cs) h = inr (ground (arith, h.1))

Anchor-At : (strict : Bool) (s r : List ℕ) → Anchor strict s r → At [] r
unfolding in_anchor
Anchor-At true s r a = absurd a
Anchor-At false s [] a = inl refl
Anchor-At false s (c ∷ cs) (part, e, text, end) = absurd (ground (arith, end.1))

Digits-At : (s r : List ℕ) → Digits true s r → At (b'/' ∷ question_hash) r
unfolding one_of
Digits-At s r (digits, e, o, inl nul) = inl nul
Digits-At s r (digits, e, o, inr (slash, _)) = inr (rw slash refl)

Begins-behind_host : (r : List ℕ) → Begins behind_host r → At (b':' ∷ b'/' ∷ question_hash) r
unfolding behind_host one_of
Begins-behind_host [] h = inl refl
Begins-behind_host (c ∷ cs) h = inr (ground (arith, h))

-- Behind a part that its byte begins, if it is there, that byte is not to come.
optional-At :
    (c : ℕ) (bytes s r : List ℕ) (G : Part)
    → At (c ∷ bytes) s
    → (G s r → At bytes r)
    → Optional c G s r
    → At bytes r
unfolding one_of
optional-At c bytes s r G a behind (inl (_, g)) = behind g
optional-At c bytes s r G (inl nul) behind (inr (_, e)) = inl (sym e ∙ nul)
optional-At c bytes s r G (inr there) behind (inr (isnt, e)) =
    inr (rw (← e) (ground (arith, there, isnt)))

-- The parts leave nothing of the link.
pub HttpParts-end :
    (idna : List ℕ → Option (List ℕ)) (strict : Bool) (s r : List ℕ)
    → HttpParts idna strict s r
    → r ≡ []
unfolding one_of
HttpParts-end idna strict s r
      (m1, ((name, e, outside, begins, is), (m2, (port, (m3, (path, (m4, (search, anchor)))))))) =
    let a1 = Begins-behind_host m1 begins in
    let a2 =
      optional-At b':' (b'/' ∷ question_hash) m1 m2 (Behind (Digits true)) a1
        (Digits-At (drop 1 m1) m2) port in
    let a3 =
      optional-At b'/' question_hash m2 m3 (Text in_path) a2 (λ t. Stops-in_path m3 t.3) path in
    let a4 =
      optional-At b'?' (b'#' ∷ []) m3 m4 (Behind (Text in_search)) a3 (λ t. Stops-in_search m4 t.3)
        search in
    let a5 = optional-At b'#' [] m4 r (Anchor strict) a4 (Anchor-At strict m4 r) anchor in
    elim a5 [ inl nul ↦ nul | inr one ↦ absurd (ground arith) ]
