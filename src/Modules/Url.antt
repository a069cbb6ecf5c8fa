-- ===== src/Modules/Url.antt =====
-- The url of a module's `import.meta`.
use quickjs_bun.Prelude.{
  ℕ, ◌+◌, ◌≡◌, ◌≢◌, refl, ap, ◌∙◌, Option, none, some, inl, inr, zero, suc, List, [], ◌∷◌, ◌++◌,
  All, length, drop, length-append, ◌==◌, if◌then◌else◌, arith, Bool-cases, ==→eq,
}
use quickjs_bun.Keys.{copy_to}
use quickjs_bun.Keys.Layout.{copy_behind}
use quickjs_bun.Modules.{
  has_colon, file_prefix, block_of, fill, c_string, ModuleApi, string_of, file_url, make_url,
}
use quickjs_bun.Runtime.{Runtime}
use quickjs_bun.Ownership.{Ledger}

drop_exactly : (n : ℕ) (bs : List ℕ) → length bs ≡ n → drop n bs ≡ []
drop_exactly zero [] e = refl
drop_exactly zero (b ∷ bs) e = absurd (omega arith)
drop_exactly (suc n) [] e = refl
drop_exactly (suc n) (b ∷ bs) e = drop_exactly n bs (omega arith)

append_nil : (bs : List ℕ) → bs ++ [] ≡ bs
append_nil [] = refl
append_nil (b ∷ bs) = ap (λ rest. b ∷ rest) (append_nil bs)

-- The second copy, behind the prefix.
second_copy :
    (text : List ℕ)
    → (rest : List ℕ) → length rest ≡ length text
    → copy_to 7 text (file_prefix ++ rest) ≡ some (file_prefix ++ text)
second_copy text rest same =
    copy_behind file_prefix text rest (omega arith)
    ∙ rw (drop_exactly (length text) rest same, append_nil text) refl

length-block_of : (n : ℕ) (before : ℕ → ℕ) → length (block_of n before) ≡ n
unfolding block_of
length-block_of zero before = refl
length-block_of (suc n) before = ap suc (length-block_of n (λ k. before (suc k)))

-- The block is filled from its first byte to its last, whatever it held before.
pub fill_lem :
    (before : ℕ → ℕ) (name : List ℕ) → fill before name ≡ some (file_prefix ++ (name ++ (0 ∷ [])))
unfolding fill copy_to block_of
fill_lem before name =
    let size : 7 + length name + 1
        ≡ suc (suc (suc (suc (suc (suc (suc (length (name ++ (0 ∷ []))))))))) =
      omega (arith, length-append name (0 ∷ [])) in
    rw size (second_copy (name ++ (0 ∷ [])) _ (length-block_of _ _))

-- A name without NUL bytes is read back up to the NUL that ends it.
c_string-append : (bs : List ℕ) → All (λ b. b ≢ 0) bs → c_string (bs ++ (0 ∷ [])) ≡ bs
unfolding c_string
c_string-append [] h = refl
c_string-append (b ∷ bs) h = elim (Bool-cases (b == 0)) [
  | inl e ↦ absurd (h.0 (==→eq b 0 e))
  | inr e ↦ rw (e, c_string-append bs h.1) refl
]

-- The url of a module's name: the name where it has a colon, and a file url where it has none.
pub url_text : List ℕ → List ℕ
url_text name = if has_colon name then name else file_prefix ++ name

c_string-file :
    (name : List ℕ)
    → All (λ b. b ≢ 0) name
    → c_string (file_prefix ++ (name ++ (0 ∷ []))) ≡ file_prefix ++ name
unfolding c_string
c_string-file name text = rw (c_string-append name text) refl

module _ {E : Type 0} (api : ModuleApi E) (ctx : ℕ) where
  -- The runtime that the string is made in.
  abbrev pub url_runtime : List ℕ → Runtime E → Runtime E
  url_runtime name rt =
      if has_colon name then rt else (api.js_malloc ctx (7 + length name + 1) rt).1

  file_url-text :
      (name : List ℕ) (rt : Runtime E) (l : Ledger) (given : Option (ℕ × (ℕ → ℕ))) (p : ℕ × (ℕ → ℕ))
      → All (λ b. b ≢ 0) name
      → given ≡ some p
      → (file_url api ctx name given rt l).0 ≡ some (api.new_string ctx (file_prefix ++ name) rt).0
  unfolding file_url string_of
  file_url-text name rt l none p text e = absurd (ground arith)
  file_url-text name rt l (some (q, before)) p text e =
      rw (fill_lem before name) (rw (c_string-file name text) refl)

  -- For a name without NUL bytes, and where the block is given, whatever its bytes are before they are
  -- set, the url is the string of the name or of its file url.
  pub make_url-text :
      (name : List ℕ) (p : ℕ × (ℕ → ℕ)) (rt : Runtime E) (l : Ledger)
      → All (λ b. b ≢ 0) name
      → (api.js_malloc ctx (7 + length name + 1) rt).0 ≡ some p
      → (make_url api ctx name (has_colon name) rt l).0
        ≡ some (api.new_string ctx (url_text name) (url_runtime name rt)).0
  unfolding make_url url_text
  make_url-text name p rt l text given = elim (Bool-cases (has_colon name)) [
    | inl e ↦ rw e refl
    | inr e ↦ rw e (file_url-text name _ l _ p text given)
  ]
