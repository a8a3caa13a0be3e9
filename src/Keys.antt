-- ===== src/Keys.antt =====
-- The keys of proxy/server/metastore/meta.go, as lists of code points: sanitized object keys,
-- the keys of their versions, and the keys of the chunks of a version.
pub mod Laws
use lambda_objectstore.Base.{ℕ, ◌≡◌, refl, List, [], ◌∷◌, ◌++◌, ◌==◌, if◌then◌else◌}
use lambda_objectstore.Decimal.{decimal}

-- The code point of "@".
abbrev pub at_sign : ℕ
at_sign = 64

-- "=at."
abbrev pub replacer_delimiter : List ℕ
replacer_delimiter = 61 ∷ 97 ∷ 116 ∷ 46 ∷ []

unfoldable pub sanitize_key : List ℕ → List ℕ
sanitize_key [] = []
sanitize_key (c ∷ key) =
    let rest = sanitize_key key in if c == at_sign then replacer_delimiter ++ rest else c ∷ rest

-- "%s@v%d"
unfoldable pub meta_key_by_version : List ℕ → ℕ → List ℕ
meta_key_by_version key ver = key ++ (at_sign ∷ 118 ∷ decimal ver)

-- Meta.ChunkKey: "%d@%s@v%d"
unfoldable pub chunk_key : ℕ → List ℕ → ℕ → List ℕ
unfolding meta_key_by_version
chunk_key chunk_id key ver = decimal chunk_id ++ (at_sign ∷ meta_key_by_version key ver)

-- MetaKeyByVersion
unfoldable pub sanitized_key_by_version : List ℕ → ℕ → List ℕ
unfolding sanitize_key meta_key_by_version
sanitized_key_by_version key ver = meta_key_by_version (sanitize_key key) ver

chunk_key_example :
    chunk_key 3 (sanitize_key (97 ∷ 64 ∷ [])) 12
    ≡ 51 ∷ 64 ∷ 97 ∷ 61 ∷ 97 ∷ 116 ∷ 46 ∷ 64 ∷ 118 ∷ 49 ∷ 50 ∷ []
unfolding chunk_key sanitize_key decimal
chunk_key_example = refl
