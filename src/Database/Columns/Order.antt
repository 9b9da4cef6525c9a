-- ===== src/Database/Columns/Order.antt =====
-- The order of texts, and sorting by it.
use core_go_nopgp.Base.{
  sym, ℕ, ◌<◌, Str, true, false, List, [], ◌∷◌, ◌++◌, ◌≡◌, refl, ap, ◌∙◌, All, arith,
}
use core_go_nopgp.Database.Columns.{str_lt, insert_by, sort_by, same_text}

str_lt_asymm : (s t : Str) → str_lt s t ≡ true → str_lt t s ≡ false
unfolding str_lt
str_lt_asymm [] [] h = refl
str_lt_asymm [] (b ∷ t) h = refl
str_lt_asymm (a ∷ s) [] h = cc
str_lt_asymm (a ∷ s) (b ∷ t) h = ground (arith, str_lt_asymm s t)

str_lt_trans : (s t u : Str) → str_lt s t ≡ true → str_lt t u ≡ true → str_lt s u ≡ true
unfolding str_lt
str_lt_trans [] [] u h k = cc
str_lt_trans [] (b ∷ t) [] h k = cc
str_lt_trans [] (b ∷ t) (c ∷ u) h k = refl
str_lt_trans (a ∷ s) [] u h k = cc
str_lt_trans (a ∷ s) (b ∷ t) [] h k = cc
str_lt_trans (a ∷ s) (b ∷ t) (c ∷ u) h k = ground (arith, str_lt_trans s t u)

str_lt_total : (s t : Str) → str_lt s t ≡ false → str_lt t s ≡ false → s ≡ t
unfolding str_lt
str_lt_total [] [] h k = refl
str_lt_total [] (b ∷ t) h k = cc
str_lt_total (a ∷ s) [] h k = cc
str_lt_total (a ∷ s) (b ∷ t) h k = ground (arith, str_lt_total s t)

unfoldable pub insert_text : Str → List Str → List Str
insert_text = insert_by same_text

-- Inserting two texts, in either order.
pub insert_text_comm :
    (a b : Str) (l : List Str) → insert_text a (insert_text b l) ≡ insert_text b (insert_text a l)
unfolding insert_text insert_by
insert_text_comm a b [] = ground (arith, str_lt_asymm a b, str_lt_total a b)
insert_text_comm a b (c ∷ l) = ground (
  arith,
  insert_text_comm a b l,
  str_lt_asymm a b,
  str_lt_total a b,
  str_lt_asymm a c,
  str_lt_asymm b c,
  str_lt_total a c,
  str_lt_total b c,
  str_lt_trans a b c,
  str_lt_trans b a c,
  str_lt_trans c a b,
  str_lt_trans c b a,
)

unfoldable pub sort_texts : List Str → List Str
sort_texts = sort_by same_text

pub sort_texts-cons :
    (x : Str) (xs : List Str) → sort_texts (x ∷ xs) ≡ insert_text x (sort_texts xs)
unfolding sort_texts sort_by insert_text
sort_texts-cons x xs = refl

-- A text in the middle can be inserted last.
pub sort_texts-insert_text :
    (xs ys : List Str) (a : Str)
    → sort_texts (xs ++ (a ∷ ys)) ≡ insert_text a (sort_texts (xs ++ ys))
unfolding sort_texts sort_by insert_text
sort_texts-insert_text [] ys a = refl
sort_texts-insert_text (x ∷ xs) ys a =
    ap (insert_text x) (sort_texts-insert_text xs ys a)
    ∙ unfold insert_text in insert_text_comm x a (sort_texts (xs ++ ys))

-- A common start does not matter.
pub str_lt-append : (p s t : Str) → str_lt (p ++ s) (p ++ t) ≡ str_lt s t
unfolding str_lt
str_lt-append [] s t = refl
str_lt-append (a ∷ p) s t = ground (arith, str_lt-append p s t)

abbrev pub quote_mark : ℕ
quote_mark = b'"'

-- A closing quotation mark does not matter to texts whose bytes are all above it.
pub str_lt-closed :
    (s t : Str)
    → All (λ c. quote_mark < c) s
    → All (λ c. quote_mark < c) t
    → str_lt (s ++ (quote_mark ∷ [])) (t ++ (quote_mark ∷ [])) ≡ str_lt s t
unfolding str_lt
str_lt-closed [] [] h k = refl
str_lt-closed [] (b ∷ t) h k = ground arith
str_lt-closed (a ∷ s) [] h k = ground arith
str_lt-closed (a ∷ s) (b ∷ t) (p, h) (q, k) = ground (arith, str_lt-closed s t h k)

-- What is inserted into the end of a list is inserted into the whole.
pub sort_texts-append :
    (xs ys zs : List Str) (a : Str)
    → sort_texts ys ≡ insert_text a (sort_texts zs)
    → sort_texts (xs ++ ys) ≡ insert_text a (sort_texts (xs ++ zs))
sort_texts-append [] ys zs a h = h
sort_texts-append (x ∷ xs) ys zs a h =
    sort_texts-cons x (xs ++ ys)
    ∙ ap (insert_text x) (sort_texts-append xs ys zs a h)
    ∙ insert_text_comm x a (sort_texts (xs ++ zs))
    ∙ ap (insert_text a) (sym (sort_texts-cons x (xs ++ zs)))
