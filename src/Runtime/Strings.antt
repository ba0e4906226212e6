-- ===== src/Runtime/Strings.antt =====
-- The table of interned strings, src/runtime/string.cpp. A string object is its address, its hash and its
-- bytes; a bucket is its chain. Sizes are powers of two, so that `& (size - 1)` is the remainder. Memory is
-- not short: `intern` takes the address of the object that it would allocate.
pub mod Buckets
pub mod Resized
pub mod Interned
pub mod Removed
use Prim.Native.Nat.{bit_xor, max}
use luajit.Common.{
  ℕ, suc, ◌-◌, ◌*◌, ◌^◌, ◌%◌, Bool, true, false, ◌&&◌, List, [], ◌∷◌, length, get_or, set,
  replicate, same_bytes, leb, ◌==◌, if◌then◌else◌, Option, none, some,
}
use luajit.Runtime.Table.{double_until}

pub record LjString : Type 0 where
  pub addr : ℕ
  pub hash : ℕ
  pub text : List ℕ

pub record StringTable : Type 0 where
  pub hash : List (List LjString)
  pub nuse : ℕ

unfoldable pub hash_from : ℕ → List ℕ → ℕ
hash_from h [] = h
hash_from h (c ∷ s) = hash_from (bit_xor h c * 16777619 % 2 ^ 32) s

abbrev pub hash_bytes : List ℕ → ℕ
hash_bytes s = hash_from 2166136261 s

abbrev pub bucket : List (List LjString) → ℕ → List LjString
bucket buckets i = get_or buckets i []

-- `head->hnext = nh[i]; nh[i] = head`
unfoldable pub push : List (List LjString) → LjString → List (List LjString)
push buckets s = let i = s.hash % length buckets in set buckets i (s ∷ bucket buckets i)

-- `while (head)`
unfoldable pub relink : List (List LjString) → List LjString → List (List LjString)
unfolding push
relink buckets [] = buckets
relink buckets (s ∷ chain) = relink (push buckets s) chain

-- `for (LjString* head : hash)`
unfoldable pub relink_all : List (List LjString) → List (List LjString) → List (List LjString)
unfolding relink
relink_all buckets [] = buckets
relink_all buckets (chain ∷ chains) = relink_all (relink buckets chain) chains

-- The doubling loop ends within as many rounds as the size that it is to reach.
unfoldable pub resize : StringTable → ℕ → StringTable
unfolding relink_all
resize t new_size =
    let goal = max new_size 32 in
    let n = double_until goal goal 1 in record t { hash = relink_all (replicate n []) t.hash }

abbrev pub is_string : ℕ → List ℕ → LjString → Bool
is_string h s p = p.hash == h && same_bytes p.text s

-- The chain's first string with that hash and those bytes.
unfoldable pub search : ℕ → List ℕ → List LjString → Option LjString
search h s [] = none
search h s (p ∷ chain) = if is_string h s p then some p else search h s chain

-- The chain without the object of that address, if it is there.
unfoldable pub unlink : ℕ → List LjString → Option (List LjString)
unlink a [] = none
unlink a (p ∷ chain) =
    let below = unlink a chain in
    if p.addr == a then some chain else elim below [ some rest ↦ some (p ∷ rest) | none ↦ none ]

abbrev pub is_empty : List (List LjString) → Bool
is_empty [] = true
is_empty (chain ∷ chains) = false

unfoldable pub remove : StringTable → LjString → StringTable
unfolding unlink
remove t s =
    let i = s.hash % length t.hash in
    if is_empty t.hash then t else elim (unlink s.addr (bucket t.hash i)) [
      | some rest ↦ record { hash = set t.hash i rest; nuse = t.nuse - 1 }
      | none ↦ t
    ]

-- `if (hash.empty()) resize(128)`
abbrev pub ready : StringTable → StringTable
ready t = if is_empty t.hash then resize t 128 else t

-- `if (nuse >= hash.size()) resize(hash.size() * 2)`
abbrev pub roomy : StringTable → StringTable
roomy t = if leb (length t.hash) t.nuse then resize t (length t.hash * 2) else t

abbrev pub link : StringTable → LjString → StringTable
link t s = record { hash = push t.hash s; nuse = suc t.nuse }

unfoldable pub intern : ℕ → StringTable → List ℕ → LjString × StringTable
unfolding resize search push
intern fresh t s =
    let h = hash_bytes s in
    let found_in = ready t in
    let made : LjString = record { addr = fresh; hash = h; text = s } in
    elim (search h s (bucket found_in.hash (h % length found_in.hash))) [
      | some p ↦ (p, found_in)
      | none ↦ (made, link (roomy found_in) made)
    ]
