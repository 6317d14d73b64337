-- ===== src/Crud/Paging/Codec.antt =====
-- `_decode_cursor` reads what `_encode_cursor` wrote: the padding that is cut off is put back.
use json_api_forge.Prelude.{
  ℕ, zero, suc, refl, sym, ap, Bool, some, [], arith, length, ok, ◌+◌, ◌-◌, ◌%◌, ◌≤◌, ◌≡◌, ◌∙◌, ◌∷◌,
  ◌++◌, ◌==◌, nat_eq, string_eq,
}
use json_api_forge.Prelude.Text.{Text, codes, starts_with-append}
use json_api_forge.Prelude.Parts.{rstrip}
use json_api_forge.Crud.Model.{Value}
use json_api_forge.Crud.Engine.{Engine}
use json_api_forge.Crud.Reads.{repeat, encode_cursor, pad, pair_of, decode_cursor}

abbrev is_equals : ℕ → Bool
is_equals c = c == 61

-- What the codecs of Python's standard library do: base64 is a text of whole groups of four, which at
-- most two `=` fill up, and decoding undoes encoding. JSON gives back `jsonable v` of a value `v`.
pub record Codecs (engine : Engine) : Type 0 where
  pub jsonable : Value → Value
  pub body : Value → Value → Text
  pub padding : Value → Value → ℕ
  pub is_base64 : (a b : Value) → engine.base64_json a b ≡ body a b ++ repeat (padding a b) 61
  pub no_padding_left : (a b : Value) → rstrip is_equals (body a b) ≡ body a b
  pub padding_le : (a b : Value) → padding a b ≤ 2
  pub whole_groups : (a b : Value) → (length (body a b) + padding a b) % 4 ≡ 0
  pub decodes :
      (a b : Value)
      → engine.json_base64 (engine.base64_json a b) ≡ some (some (jsonable a ∷ jsonable b ∷ []))

rstrip-repeat : (p : ℕ) → rstrip is_equals (repeat p 61) ≡ []
unfolding rstrip repeat
rstrip-repeat zero = refl
rstrip-repeat (suc p) = rw (rstrip-repeat p) refl

rstrip-append :
    (s t : Text) → rstrip is_equals t ≡ [] → rstrip is_equals (s ++ t) ≡ rstrip is_equals s
unfolding rstrip
rstrip-append [] t h = h
rstrip-append (c ∷ s) t h = rw (rstrip-append s t h) refl

groups : (n p : ℕ) → (n + p) % 4 ≡ 0 → p ≤ 2 → (4 - n % 4) % 4 ≡ p
groups n p h le = omega arith

-- For base64 and JSON as Python has them: the cursor of two values decodes to what JSON makes of them.
pub decode_cursor-encode_cursor :
    (engine : Engine) (codecs : Codecs engine) (a b : Value)
    → decode_cursor engine (encode_cursor engine a b) ≡ ok (codecs.jsonable a, codecs.jsonable b)
unfolding decode_cursor encode_cursor pair_of pad
decode_cursor-encode_cursor engine codecs a b =
    let stripped : rstrip is_equals (engine.base64_json a b) ≡ codecs.body a b =
      ap (rstrip is_equals) (codecs.is_base64 a b)
      ∙ rstrip-append (codecs.body a b) (repeat (codecs.padding a b) 61)
          (rstrip-repeat (codecs.padding a b))
      ∙ codecs.no_padding_left a b in
    let padded : pad (codecs.body a b) ≡ engine.base64_json a b =
      ap (λ n. codecs.body a b ++ repeat n 61)
        (groups (length (codecs.body a b)) (codecs.padding a b) (codecs.whole_groups a b)
          (codecs.padding_le a b))
      ∙ sym (codecs.is_base64 a b) in
    rw (stripped) (
      rw (starts_with-append (codes "v1.") (codecs.body a b))
        (ap (λ t. pair_of (engine.json_base64 t)) padded ∙ ap pair_of (codecs.decodes a b)))
