-- ===== src/Logger/Tag.antt =====
-- The context tag behind ulog_set_context_tag.
use study_c.Prelude.{
  ◌≡◌, refl, sym, ap, ◌∙◌, Option, none, some, [], ◌∷◌, ◌++◌, arith, Bytes, c_str, drop, set,
  strncpy, pad, c_str-pad, c_str-set_zero, length-strncpy, length-set, length-pad, drop-append,
}
use study_c.Logger.{Logger}
use study_c.Logger.Control.{copy_tag}
use study_c.Logger.Bounds.{IsLogger}
use study_c.Logger.Runs.{tag_text}

tag_end-set : (old : Bytes) → drop 31 (set old 0 0) ≡ drop 31 old
unfolding drop
tag_end-set [] = refl
tag_end-set (x ∷ xs) = refl

tag_end-strncpy : (old tag : Bytes) → drop 31 (strncpy old tag 31) ≡ drop 31 old
unfolding strncpy
tag_end-strncpy old tag =
    let p = pad 31 (c_str tag) in
    ap (λ n. drop n (p ++ drop 31 old)) (sym (length-pad 31 (c_str tag)))
    ∙ drop-append p (drop 31 old)

terminator : (b : Bytes) → b ≡ 0 ∷ [] → c_str b ≡ []
unfolding c_str
terminator b e = ap c_str e

pub copy_tag-text :
    (tag : Option Bytes) (old : Bytes)
    → drop 31 old ≡ 0 ∷ []
    → c_str (copy_tag tag old) ≡ tag_text tag
unfolding strncpy
copy_tag-text none old e = c_str-set_zero old
copy_tag-text (some tag) old e = c_str-pad 31 tag (drop 31 old) (terminator (drop 31 old) e)

pub copy_tag-IsLogger :
    (tag : Option Bytes) (l : Logger)
    → IsLogger l
    → IsLogger (record l { context_tag = copy_tag tag l.context_tag })
copy_tag-IsLogger none l v = record {
  tag_length = length-set l.context_tag 0 0 ∙ v.tag_length;
  tag_end = tag_end-set l.context_tag ∙ v.tag_end;
}
copy_tag-IsLogger (some tag) l v = record {
  tag_length = length-strncpy l.context_tag tag 31 (omega (arith, v.tag_length)) ∙ v.tag_length;
  tag_end = tag_end-strncpy l.context_tag tag ∙ v.tag_end;
}
