-- ===== src/Storage/Manager/Paths.antt =====
-- Manager.cpp, `makeStoragePath`: the directory of a chain.
use mathlib.Core.List.{append_cancel_left, append_cancel_right}
use chain_db.Base.{ℕ, ◌≡◌, ◌++◌, ◌∷◌, ◌==◌, last_or, if◌then◌else◌, inl, inr, Bool-cases}
use chain_db.Base.Bytes.{Bytes, text}
use chain_db.Base.Decimal.{to_string, to_string_injective}

-- `path / path` of a relative file name, on a POSIX system: a separator is put between them unless
-- the directory is empty or ends in one.
abbrev pub join_path : Bytes → Bytes → Bytes
join_path dir name = if last_or dir b'/' == b'/' then dir ++ name else dir ++ b'/' ∷ name

unfoldable pub make_storage_path : Bytes → ℕ → Bytes
make_storage_path dir chain_id = join_path dir (to_string chain_id ++ text ".blockchain")

join_path_injective : (dir a b : Bytes) → join_path dir a ≡ join_path dir b → a ≡ b
join_path_injective dir a b e = elim (Bool-cases (last_or dir b'/' == b'/')) [
  | inl slash ↦ append_cancel_left dir a b (rw slash at e)
  | inr bare ↦ cc (append_cancel_left dir (b'/' ∷ a) (b'/' ∷ b) (rw bare at e))
]

-- Chain numbers with the same path under a directory are the same number.
pub make_storage_path_injective :
    (dir : Bytes) (i j : ℕ) → make_storage_path dir i ≡ make_storage_path dir j → i ≡ j
unfolding make_storage_path
make_storage_path_injective dir i j e = to_string_injective i j (
    append_cancel_right (to_string i) (to_string j) (text ".blockchain")
      (join_path_injective dir _ _ e))
