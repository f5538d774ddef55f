-- ===== src/Pool.antt =====
-- pool/pool.go: batches of a list, and a pool of workers over a closed channel.
pub mod Batches
pub mod Workers
use baas_go_sdk.Base.{
  ℕ, zero, suc, ◌+◌, ◌-◌, Option, none, some, List, [], ◌∷◌, ◌++◌, ltb, if◌then◌else◌, length, take,
  drop,
}

module _ {ℓ} {A : Type ℓ} where
  -- `for i := 0; i < len(items); i += size`, on fuel; `none` means that the fuel ran out. The slice
  -- is `items[i:end]`.
  unfoldable pub batch_loop : ℕ → ℕ → List A → ℕ → List (List A) → Option (List (List A))
  batch_loop zero i items size out = none
  batch_loop (suc fuel) i items size out =
      let end = if ltb (length items) (i + size) then length items else i + size in
      let rest =
        batch_loop fuel (i + size) items size (out ++ take (end - i) (drop i items) ∷ []) in
      if ltb i (length items) then rest else some out

  unfoldable pub batch : List A → ℕ → Option (List (List A))
  batch items size = batch_loop (length items + 1) 0 items size []
