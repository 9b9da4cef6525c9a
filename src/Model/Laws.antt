-- ===== src/Model/Laws.antt =====
-- Cursors go to the client and come back, and pages are never empty.
use mathlib.Core.Bool.{false≢true}
use core_go_nopgp.Base.{
  ap, ◌∙◌, ℤ, pos, lt_ℤ, Str, true, Option, none, some, [], ◌∷◌, ◌++◌, ok, ◌≡◌, refl, sym,
  Option-cases, inl, inr, >>=-eq-ok, must-eq-ok, ok-injective, Bool-cases, false,
}
use core_go_nopgp.Crypto.{Primitives, Keys, encrypt, decrypt_without_expiration}
use core_go_nopgp.Crypto.Laws.{Documented}
use core_go_nopgp.Model.{Cursor, Filter, Json, page, new_cursor, unmarshal_gql, marshal_gql}

-- The count that a filter asks for, if there is one.
abbrev pub asked : Option Filter → Option ℤ
asked none = none
asked (some filter) = filter.count

-- A first page: it starts at the front and has a positive count, which is that of the filter if the
-- filter has a positive one and 25 otherwise.
pub record IsFirstPage (filter : Option Filter) (cur : Cursor) : Type 0 where
  pub positive : lt_ℤ (pos 0) cur.count ≡ true
  pub from_front : cur ≡ page cur.count
  pub as_asked : (n : ℤ) → asked filter ≡ some n → lt_ℤ (pos 0) n ≡ true → cur.count ≡ n
  pub refused : (n : ℤ) → asked filter ≡ some n → lt_ℤ (pos 0) n ≡ false → cur.count ≡ pos 25
  pub unasked : asked filter ≡ none → cur.count ≡ pos 25

not_both :
    (m n : ℤ)
    → ◌≡◌ {A = Option ℤ} (some m) (some n)
    → lt_ℤ (pos 0) m ≡ false
    → lt_ℤ (pos 0) n ≡ true
    → ⊥
not_both m n k less more =
    let same : m ≡ n = cc k in false≢true (sym less ∙ ap (λ i. lt_ℤ (pos 0) i) same ∙ more)

-- NewCursor gives a page that starts at the front and has a positive count, which is that of the
-- filter where the filter has a positive one, and 25 otherwise.
pub new_cursor-IsFirstPage : (filter : Option Filter) → IsFirstPage filter (new_cursor filter)
unfolding new_cursor
new_cursor-IsFirstPage none = record {
  positive = refl;
  from_front = refl;
  as_asked = λ n k q. cc k;
  refused = λ n k q. cc k;
  unasked = λ k. refl;
}
new_cursor-IsFirstPage (some filter) = elim (Option-cases filter.count) [
  | inl e ↦ rw e (record {
    positive = refl;
    from_front = refl;
    as_asked = λ n k q. cc k;
    refused = λ n k q. cc k;
    unasked = λ k. refl;
  })
  | inr (m, e) ↦ elim (Bool-cases (lt_ℤ (pos 0) m)) [
    | inl more ↦
        rw (e, more)
          (record {
            positive = more;
            from_front = refl;
            as_asked = λ n k q. cc k;
            refused = λ n k q. absurd (not_both n m (sym k) q more);
            unasked = λ k. cc k;
          })
    | inr less ↦
        rw (e, less)
          (record {
            positive = refl;
            from_front = refl;
            as_asked = λ n k q. absurd (not_both m n k less q);
            refused = λ n k q. refl;
            unasked = λ k. refl;
          })
  ]
]

module _ (p : Primitives) (documented : Documented p) (keys : Keys) (json : Json) where
  -- What MarshalGQL writes of a cursor is a token between quotation marks, and UnmarshalGQL gives
  -- the cursor back for the token. The condition is that the ciphers are as documented
  -- (`Documented`) and that JSON gives the cursor back.
  pub unmarshal_gql-marshal_gql :
      (cur : Cursor) (written : Str)
      → json.unmarshal (json.marshal cur) ≡ some cur
      → marshal_gql p keys json cur ≡ ok written
      → (token : Str) × (written ≡ b'"' ∷ (token ++ b'"' ∷ []))
        × (unmarshal_gql p keys json (some token) ≡ ok cur)
  unfolding marshal_gql unmarshal_gql encrypt decrypt_without_expiration
  unmarshal_gql-marshal_gql cur written j h =
      let (token, encrypted, same) = >>=-eq-ok (encrypt p keys (json.marshal cur)) _ h in
      (
        token,
        sym (ok-injective _ written same),
        rw (
          documented.decrypt_encrypt keys.fernet_key (json.marshal cur) token
              (must-eq-ok _ _ encrypted),
          j,
        ),
      )
