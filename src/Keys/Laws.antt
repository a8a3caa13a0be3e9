-- ===== src/Keys/Laws.antt =====
-- The version and chunk keys of proxy/server/metastore/meta.go name their parts uniquely.
use lambda_objectstore.Base.{
  ℕ, ◌≡◌, refl, sym, ◌≢◌, List, [], ◌∷◌, ◌++◌, arith, ◌==◌, All, All-append, inl, inr, Bool-cases,
}
use lambda_objectstore.Decimal.{decimal, decimal-injective, decimal-IsDigit, IsDigit}
use lambda_objectstore.Keys.{
  at_sign, replacer_delimiter, sanitize_key, meta_key_by_version, chunk_key,
}

-- No "@" occurs.
abbrev pub IsSanitized : List ℕ → Type 0
IsSanitized = All (λ c. c ≢ at_sign)

pub sanitize_key-IsSanitized : (key : List ℕ) → IsSanitized (sanitize_key key)
unfolding sanitize_key
sanitize_key-IsSanitized [] = tt
sanitize_key-IsSanitized (c ∷ key) = elim (Bool-cases (c == at_sign)) [
  | inl e ↦ rw e (
      All-append (λ c. c ≢ at_sign) replacer_delimiter (sanitize_key key) (omega arith)
        (sanitize_key-IsSanitized key))
  | inr e ↦ rw e ((λ k. ground arith), sanitize_key-IsSanitized key)
]

-- A key without "@" is kept as it is.
pub sanitize_key_of_IsSanitized : (key : List ℕ) → IsSanitized key → sanitize_key key ≡ key
unfolding sanitize_key
sanitize_key_of_IsSanitized [] h = refl
sanitize_key_of_IsSanitized (c ∷ key) h = ground (arith, h.0, sanitize_key_of_IsSanitized key h.1)

-- The text before the first "@" and the text behind it are determined.
split_at_sign :
    (xs ys r s : List ℕ)
    → IsSanitized xs
    → IsSanitized ys
    → xs ++ (at_sign ∷ r) ≡ ys ++ (at_sign ∷ s)
    → (xs ≡ ys) × (r ≡ s)
split_at_sign [] [] r s h k e = (refl, cc)
split_at_sign [] (y ∷ ys) r s h k e = absurd (k.0 (sym (cc)))
split_at_sign (x ∷ xs) [] r s h k e = absurd (h.0 (cc))
split_at_sign (x ∷ xs) (y ∷ ys) r s h k e =
    let (p, q) = split_at_sign xs ys r s h.1 k.1 (cc) in (cc, q)

IsDigit-IsSanitized : (xs : List ℕ) → All IsDigit xs → IsSanitized xs
IsDigit-IsSanitized [] h = tt
IsDigit-IsSanitized (x ∷ xs) h = ((λ e. omega arith), IsDigit-IsSanitized xs h.1)

decimal-IsSanitized : (n : ℕ) → IsSanitized (decimal n)
decimal-IsSanitized n = IsDigit-IsSanitized (decimal n) (decimal-IsDigit n)

-- The versions of sanitized keys have different map keys, unless key and version are the same.
pub meta_key_by_version-injective :
    (key key' : List ℕ) (ver ver' : ℕ)
    → IsSanitized key
    → IsSanitized key'
    → meta_key_by_version key ver ≡ meta_key_by_version key' ver'
    → (key ≡ key') × (ver ≡ ver')
unfolding meta_key_by_version
meta_key_by_version-injective key key' ver ver' h k e =
    let (p, q) = split_at_sign key key' _ _ h k e in (p, decimal-injective ver ver' (cc))

-- A chunk's key determines the chunk, the sanitized object key and the version.
pub chunk_key-injective :
    (c c' : ℕ) (key key' : List ℕ) (ver ver' : ℕ)
    → IsSanitized key
    → IsSanitized key'
    → chunk_key c key ver ≡ chunk_key c' key' ver'
    → (c ≡ c') × (key ≡ key') × (ver ≡ ver')
unfolding chunk_key
chunk_key-injective c c' key key' ver ver' h k e =
    let (p, q) =
      split_at_sign (decimal c) (decimal c') _ _ (decimal-IsSanitized c) (decimal-IsSanitized c')
        e in
    let (r, s) = meta_key_by_version-injective key key' ver ver' h k q in
    (decimal-injective c c' p, r, s)

not_sanitized_append : (xs r : List ℕ) → IsSanitized (xs ++ (at_sign ∷ r)) → ⊥
not_sanitized_append [] r h = h.0 refl
not_sanitized_append (x ∷ xs) r h = not_sanitized_append xs r h.1

-- No key of a version is a sanitized key.
pub meta_key_by_version-ne_sanitized :
    (key key' : List ℕ) (ver : ℕ) → IsSanitized key' → meta_key_by_version key ver ≢ key'
unfolding meta_key_by_version
meta_key_by_version-ne_sanitized key key' ver h e =
    not_sanitized_append key _ (subst_sanitized (sym e) h)
  where
    subst_sanitized : {xs ys : List ℕ} → xs ≡ ys → IsSanitized xs → IsSanitized ys
    subst_sanitized p k = rw p at k
