-- ===== src/Runtime/Probe.antt =====
-- The open-addressing probe loops of src/runtime/table.cpp, over any keys with an equality test.
-- A slot that a deletion leaves behind stays `used`, with a nil value.
pub mod Find
pub mod Put
pub mod Store
pub mod Insert
pub mod Room
use luajit.Common.{
  ℕ, zero, suc, ◌+◌, ◌%◌, Bool, true, false, not, List, Option, none, some, length, get_or,
  if◌then◌else◌,
}

-- `TableNode`; its `next` is never anything but null.
pub record TableNode (K V : Type 0) : Type 0 where
  pub used : Bool
  pub key : K
  pub value : V

pub data Found : Type 0 where
  hit : ℕ → Found
  missing : Found

pub data Place : Type 0 where
  present : ℕ → Place
  vacant : ℕ → Place
  full : Place

abbrev pub place_at : Option ℕ → ℕ → Place
place_at none slot = vacant slot
place_at (some tomb) slot = vacant tomb

abbrev pub place_left : Option ℕ → Place
place_left none = full
place_left (some tomb) = vacant tomb

-- `first_tomb`, kept from its first assignment.
abbrev pub note_tomb : Option ℕ → Bool → ℕ → Option ℕ
note_tomb none true slot = some slot
note_tomb none false slot = none
note_tomb (some tomb) b slot = some tomb

abbrev pub node {ℓ} : {A : Type ℓ} → A → List A → ℕ → A
node blank h slot = get_or h slot blank

module _ {K V : Type 0} (eq : K → K → Bool) (blank : TableNode K V) where
  -- The loop of `Table::get`, from probe `p` on, with `fuel` probes left.
  unfoldable pub find : List (TableNode K V) → K → ℕ → ℕ → ℕ → Found
  find h k idx p zero = missing
  find h k idx p (suc fuel) =
      let slot = (idx + p) % length h in
      let rest = find h k idx (p + 1) fuel in
      if not (node blank h slot).used
      then missing
      else if eq (node blank h slot).key k
      then hit slot
      else rest

  -- The loop of `Table::set`: where the key is, else where it can go.
  module _ (is_nil : V → Bool) where
    unfoldable pub find_place : List (TableNode K V) → K → ℕ → ℕ → Option ℕ → ℕ → Place
    find_place h k idx p tomb zero = place_left tomb
    find_place h k idx p tomb (suc fuel) =
        let slot = (idx + p) % length h in
        let rest =
          find_place h k idx (p + 1) (note_tomb tomb (is_nil (node blank h slot).value) slot)
            fuel in
        if not (node blank h slot).used
        then place_at tomb slot
        else if eq (node blank h slot).key k
        then present slot
        else rest
