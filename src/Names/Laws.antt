-- ===== src/Names/Laws.antt =====
-- What `sanitize` guarantees.
use Prim.Native.Char.{code}
use essentials_calls.Base.{String, ◌≡◌, refl, true, inl, inr, arith, Bool-cases}
use essentials_calls.Base.Texts.{
  is_word, is_astral, all_chars, utf16_length, units-is_word, units-astral, units-ascii,
  is_word-underscore,
}
use essentials_calls.Names.{sanitize}

-- A sanitised name has only word characters, as many as the text has UTF-16 units.
pub sanitize_safe :
    (s : String)
    → (all_chars is_word (sanitize s) ≡ true) × (utf16_length (sanitize s) ≡ utf16_length s)
unfolding sanitize
sanitize_safe String.[] = (refl, refl)
sanitize_safe (String.◌∷◌ c s) = elim (Bool-cases (is_word (code c))) [
  | inl e ↦ ground (arith, sanitize_safe s, units-is_word (code c))
  | inr e ↦ elim (Bool-cases (is_astral (code c))) [
    | inl a ↦
        ground
          (arith, sanitize_safe s, units-astral (code c), is_word-underscore, units-is_word b'_')
    | inr a ↦
        ground
          (arith, sanitize_safe s, units-ascii (code c), is_word-underscore, units-is_word b'_')
  ]
]
