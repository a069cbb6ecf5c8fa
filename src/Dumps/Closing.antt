-- ===== src/Dumps/Closing.antt =====
-- What reading the dump of the memory usage back leaves.
use quickjs_bun.Prelude.{
  ℕ, ◌≡◌, refl, sym, Bool, true, false, Bool-cases, ◌&&◌, ◌⊎◌, inl, inr, none, some, [], ◌∷◌, ◌++◌,
  take, ℤ, pos, negsuc, ◌==◌, ==→eq, if◌then◌else◌,
}
use quickjs_bun.Dumps.{TempFile, Dump, read_back, size_of, read_sized, dump_made, dump_memory_usage}

-- NULL and no length, or a text that is not freed, of the file's bytes and a NUL byte, and its length.
unfoldable pub IsReadBack : TempFile → Dump → Type 0
IsReadBack f d =
    ((d.text ≡ none) × (d.len ≡ 0))
    ⊎ ((d.text ≡ some (take d.len f.contents ++ (0 ∷ []))) × (d.freed ≡ 0) × (d.len ≡ f.read))

read_back-IsReadBack :
    (f : TempFile) (size : ℕ) → IsReadBack f (read_back f size) × ((read_back f size).closed ≡ 1)
unfolding IsReadBack read_back
read_back-IsReadBack f size = elim (Bool-cases (f.read == size)) [
  | inl all ↦ rw all (inr (refl, refl, sym (==→eq f.read size all)), refl)
  | inr short ↦ rw short (inl (refl, refl), refl)
]

read_sized-IsReadBack :
    (f : TempFile) (size : ℤ) → IsReadBack f (read_sized f size) × ((read_sized f size).closed ≡ 1)
unfolding IsReadBack read_sized
read_sized-IsReadBack f (negsuc n) = (inl (refl, refl), refl)
read_sized-IsReadBack f (pos size) = elim (Bool-cases (f.at_start && f.allocated)) [
  | inl ready ↦ rw ready (read_back-IsReadBack f size)
  | inr failed ↦ rw failed (inl (refl, refl), refl)
]

dump_made-IsReadBack :
    (made : Bool) (f : TempFile)
    → IsReadBack f (dump_made made f) × ((dump_made made f).closed ≡ (if made then 1 else 0))
unfolding IsReadBack dump_made
dump_made-IsReadBack true f = read_sized-IsReadBack f (size_of f)
dump_made-IsReadBack false f = (inl (refl, refl), refl)

-- qjs_bun_dump_memory_usage closes the file once, if it was made, and gives the bytes of the file with
-- a NUL byte, and their number, or NULL and 0.
pub dump_memory_usage-IsReadBack :
    (f : TempFile)
    → IsReadBack f (dump_memory_usage f)
      × ((dump_memory_usage f).closed ≡ (if f.made then 1 else 0))
unfolding dump_memory_usage
dump_memory_usage-IsReadBack f = dump_made-IsReadBack f.made f
