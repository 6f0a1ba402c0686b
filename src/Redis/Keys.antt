-- ===== src/Redis/Keys.antt =====
-- Keys of users do not collide, and removing a location touches no other key.
use gogame.Common.{
  ℕ, ◌^◌, ◌<◌, ◌≡◌, ◌≢◌, refl, sym, ap, ◌∙◌, inl, inr, Bool, false, List, [], ◌∷◌, ◌++◌, none, some,
  ◌==◌, if◌then◌else◌, Bool-cases, arith, All, All-map,
}
use gogame.Text.{Text, equals, print_decimal, split}
use gogame.Text.Keyed
use gogame.Text.Keyed.{equals_iff}
use gogame.Text.Joined.{split-append, split-free}
use gogame.Text.Numbers.{IsDigit, print_decimal-IsDigit, parse_decimal, parse_decimal-print}
use gogame.Redis.{
  key_type_user, key_spec_loc, key_token, gen_key, Server, delete, user_loc, remove_user_loc,
  loc_of, int_reply,
}

-- A part of a key.
abbrev pub IsPart : Text → Type 0
IsPart s = All (λ b. b ≢ b':') s

split-gen_key :
    (kt ks : Text) (id : ℕ)
    → IsPart kt
    → IsPart ks
    → split b':' (gen_key kt ks id) ≡ kt ∷ print_decimal 20 id ∷ ks ∷ []
unfolding gen_key
split-gen_key kt ks id h g =
    split-append b':' kt (print_decimal 20 id ++ b':' ∷ ks) h
    ∙ ap (λ r. kt ∷ r)
        (split-append b':' (print_decimal 20 id) ks (
            All-map IsDigit (λ b. b ≢ b':') (λ b d. omega arith) (print_decimal 20 id)
              (print_decimal-IsDigit 20 id))
          ∙ ap (λ r. print_decimal 20 id ∷ r) (split-free b':' ks g))

print_decimal-injective :
    (m n : ℕ) → m < 2 ^ 64 → n < 2 ^ 64 → print_decimal 20 m ≡ print_decimal 20 n → m ≡ n
print_decimal-injective m n h g e =
    let a = parse_decimal-print 20 m (omega arith) in
    let b = parse_decimal-print 20 n (omega arith) in
    let c = ap (parse_decimal 0) e in let d : some m ≡ some n = sym a ∙ c ∙ b in cc

-- Different kinds, ids or specifications give different keys.
pub gen_key-injective :
    (kt kt' ks ks' : Text) (id id' : ℕ)
    → IsPart kt
    → IsPart kt'
    → IsPart ks
    → IsPart ks'
    → id < 2 ^ 64
    → id' < 2 ^ 64
    → gen_key kt ks id ≡ gen_key kt' ks' id'
    → (kt ≡ kt') × (ks ≡ ks') × (id ≡ id')
gen_key-injective kt kt' ks ks' id id' a a' b b' h h' e =
    let parts =
      sym (split-gen_key kt ks id a b) ∙ ap (split b':') e ∙ split-gen_key kt' ks' id' a' b' in
    let printed : print_decimal 20 id ≡ print_decimal 20 id' = cc in
    ((cc), (cc), print_decimal-injective id id' h h' printed)

lookup-delete :
    (other key : Text) (entries : List (Text × Text))
    → Keyed.lookup other (delete key entries)
      ≡ (if equals key other then none else Keyed.lookup other entries)
unfolding Keyed.lookup delete
lookup-delete other key [] = ground arith
lookup-delete other key ((name, value) ∷ rest) = ground (
  arith,
  equals_iff name key,
  equals_iff key other,
  equals_iff name other,
  lookup-delete other key rest,
)

-- Whatever fails, the removal of a location changes the value of no other key.
remove_user_loc-kept :
    (get_fails del_fails : Bool) (uid gsid : ℕ) (server : Server) (key : Text)
    → gen_key key_type_user key_spec_loc uid ≢ key
    → Keyed.lookup key (remove_user_loc get_fails del_fails uid gsid server).0.texts
      ≡ Keyed.lookup key server.texts
unfolding remove_user_loc
remove_user_loc-kept get_fails del_fails uid gsid server key h =
    elim (Bool-cases ((user_loc get_fails uid server).0 == gsid)) [
      | inr other ↦ rw other refl
      | inl own ↦ elim (Bool-cases del_fails) [
        | inl fails ↦ rw (own, fails) refl
        | inr removed ↦
            rw (own, removed)
              (lookup-delete key (gen_key key_type_user key_spec_loc uid) server.texts
                ∙ (rw (differs (gen_key key_type_user key_spec_loc uid) key h) refl))
      ]
    ]
  where
    differs : (a b : Text) → a ≢ b → equals a b ≡ false
    differs a b h = elim (Bool-cases (equals a b)) [
      | inl e ↦ absurd (h ((equals_iff a b).0 e))
      | inr e ↦ e
    ]

loc_key-token_key :
    (uid account : ℕ)
    → uid < 2 ^ 64
    → account < 2 ^ 64
    → gen_key key_type_user key_spec_loc uid ≢ gen_key key_type_user key_token account
loc_key-token_key uid account h g e =
    let same =
      (gen_key-injective key_type_user key_type_user key_spec_loc key_token uid account
        (omega arith) (omega arith) (omega arith) (omega arith) h g e).1 in
    ground arith

loc_key-loc_key :
    (uid other : ℕ)
    → uid < 2 ^ 64
    → other < 2 ^ 64
    → uid ≢ other
    → gen_key key_type_user key_spec_loc uid ≢ gen_key key_type_user key_spec_loc other
loc_key-loc_key uid other h g ne e =
    ne
      (gen_key-injective key_type_user key_type_user key_spec_loc key_spec_loc uid other
        (omega arith) (omega arith) (omega arith) (omega arith) h g e).2

-- The removal of a user's location leaves every token, and the location of every other user.
pub remove_user_loc-others :
    (get_fails del_fails : Bool) (uid other gsid : ℕ) (server : Server)
    → uid < 2 ^ 64
    → other < 2 ^ 64
    → uid ≢ other
    → (user_loc false other (remove_user_loc get_fails del_fails uid gsid server).0
        ≡ user_loc false other server)
      × (Keyed.lookup
            (gen_key key_type_user key_token other)
            (remove_user_loc get_fails del_fails uid gsid server).0.texts
          ≡ Keyed.lookup (gen_key key_type_user key_token other) server.texts)
unfolding user_loc
remove_user_loc-others get_fails del_fails uid other gsid server h g ne = (
  ap (λ reply. loc_of (int_reply reply))
      (remove_user_loc-kept get_fails del_fails uid gsid server
        (gen_key key_type_user key_spec_loc other) (loc_key-loc_key uid other h g ne)),
  remove_user_loc-kept get_fails del_fails uid gsid server (gen_key key_type_user key_token other)
      (loc_key-token_key uid other h g),
)
