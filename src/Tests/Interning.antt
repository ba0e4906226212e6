-- ===== src/Tests/Interning.antt =====
-- Interning into the table that a state starts with.
use luajit.Common.{ℕ, ◌≡◌, ◌↔◌, refl, List, [], ◌∷◌, length}
use luajit.Runtime.Strings.{
  LjString, StringTable, intern, remove, hash_bytes, search, resize, hash_from,
}
use luajit.Runtime.Table.{double_until}
use luajit.Runtime.Strings.Resized.{Valid}
use luajit.Runtime.Strings.Removed.{Removes, remove-Removes}
use luajit.Runtime.Strings.Interned.{Interns, intern-Interns, intern_same}

abbrev no_strings : StringTable
no_strings = record { hash = []; nuse = 0 }

no_strings-Valid : Valid no_strings
no_strings-Valid = record {
  hashed = λ x a. absurd a;
  placed = λ x j a. absurd a;
  one = λ x y a b e. absurd a;
}

abbrev text : List ℕ
text = b'l' ∷ b'u' ∷ b'a' ∷ []

intern-Interns_example :
    Interns text no_strings (intern 16 no_strings text).0 (intern 16 no_strings text).1
intern-Interns_example = intern-Interns 16 no_strings text no_strings-Valid

intern_same_example :
    ((intern 16 no_strings text).0 ≡ (intern 17 (intern 16 no_strings text).1 text).0)
    ↔ (text ≡ text)
intern_same_example = intern_same 16 17 no_strings text text no_strings-Valid

-- FNV-1a of "lua"
lua_hash : hash_bytes text ≡ 1569859553
unfolding hash_from
lua_hash = refl

first_size : length (intern 16 no_strings text).1.hash ≡ 128
unfolding intern resize double_until hash_from
first_size = refl

-- A string that was removed is made anew.
made_anew : let (p, t) = intern 16 no_strings text in (intern 17 (remove t p) text).0.addr ≡ 17
unfolding intern resize remove search double_until hash_from
made_anew = refl

abbrev interned : LjString × StringTable
interned = intern 16 no_strings text

interned_by : Interns text no_strings interned.0 interned.1
interned_by = intern-Interns 16 no_strings text no_strings-Valid

remove-Removes_example : Removes interned.0 interned.1 (remove interned.1 interned.0)
remove-Removes_example = remove-Removes interned.1 interned.0 interned_by.valid interned_by.inside
