-- ===== src/DataSource/Selection.antt =====
-- datasource/common/select.go: which item is selected.
use packer_plugin_vsphere.Base.{
  append_nil, ◌≡◌, refl, sym, ap, subst, ◌↔◌, inl, inr, true, false, Option, List, [], ◌∷◌, ◌++◌,
  arith, Bool-cases, ℤ, pos, negsuc, All, All-append, Result, ok, >>=-eq-ok, Text,
}
use packer_plugin_vsphere.DataSource.{
  int_ltb, exactly_one, better, best_of, select_max, resolve_one,
}

int_ltb_trans : (a b c : ℤ) → int_ltb a b ≡ true → int_ltb b c ≡ true → int_ltb a c ≡ true
int_ltb_trans (pos a) (pos b) (pos c) h k = ground arith
int_ltb_trans (pos a) (pos b) (negsuc c) h k = cc
int_ltb_trans (pos a) (negsuc b) c h k = cc
int_ltb_trans (negsuc a) b (pos c) h k = refl
int_ltb_trans (negsuc a) (pos b) (negsuc c) h k = cc
int_ltb_trans (negsuc a) (negsuc b) (negsuc c) h k = ground arith

int_leb_ltb_trans : (a b c : ℤ) → int_ltb b a ≡ false → int_ltb b c ≡ true → int_ltb a c ≡ true
int_leb_ltb_trans (pos a) (pos b) (pos c) h k = ground arith
int_leb_ltb_trans (pos a) (pos b) (negsuc c) h k = cc
int_leb_ltb_trans (pos a) (negsuc b) c h k = cc
int_leb_ltb_trans (negsuc a) b (pos c) h k = refl
int_leb_ltb_trans (negsuc a) (pos b) (negsuc c) h k = cc
int_leb_ltb_trans (negsuc a) (negsuc b) (negsuc c) h k = ground arith

append_assoc : {A : Type 0} (xs ys zs : List A) → (xs ++ ys) ++ zs ≡ xs ++ (ys ++ zs)
append_assoc [] ys zs = refl
append_assoc (x ∷ xs) ys zs = ap (λ l. x ∷ l) (append_assoc xs ys zs)

All-weaken :
    {A : Type 0} {P Q : A → Type 0} (xs : List A) → ((x : A) → P x → Q x) → All P xs → All Q xs
All-weaken [] f h = tt
All-weaken (x ∷ xs) f h = (f x h.0, All-weaken xs f h.1)

module _ {T : Type 0} (score : T → Result Text ℤ) where
  -- The item has a score, below `s` or not above it.
  abbrev pub IsBelow : ℤ → T → Type 0
  IsBelow s y = (t : ℤ) × (score y ≡ ok t) × (int_ltb t s ≡ true)

  abbrev pub IsAtMost : ℤ → T → Type 0
  IsAtMost s y = (t : ℤ) × (score y ≡ ok t) × (int_ltb s t ≡ false)

  -- The first item of the greatest score.
  pub record IsFirstMax (items : List T) (x : T) : Type 0 where
    pub before : List T
    pub after : List T
    pub best : ℤ
    pub split_at : items ≡ before ++ x ∷ after
    pub scored : score x ≡ ok best
    pub smaller : All (IsBelow best) before
    pub not_greater : All (IsAtMost best) after

  -- A maximum of the items so far, after one more item.
  FirstMax-better :
      (items : List T) (x y : T) (s t : ℤ) (v : IsFirstMax items x)
      → v.best ≡ s
      → score y ≡ ok t
      → (w : IsFirstMax (items ++ y ∷ []) (better (x, s) y t).0) × (w.best ≡ (better (x, s) y t).1)
  unfolding better
  FirstMax-better items x y s t v e h = elim (Bool-cases (int_ltb s t)) [
    | inl g ↦ rw g (
      record {
        before = items;
        after = [];
        best = t;
        split_at = refl;
        scored = h;
        smaller = rw v.split_at (
            All-append (IsBelow t) v.before (x ∷ v.after)
              (All-weaken v.before (λ z m. (m.0, m.1, int_ltb_trans m.0 s t (rw (← e) m.2) g))
                v.smaller)
              (
                (s, rw (← e) v.scored, g),
                All-weaken v.after (λ z m. (m.0, m.1, int_leb_ltb_trans m.0 s t (rw (← e) m.2) g))
                    v.not_greater,
              ));
        not_greater = tt;
      },
      refl,
    )
    | inr g ↦ rw g (
      record {
        before = v.before;
        after = v.after ++ y ∷ [];
        best = s;
        split_at = rw v.split_at (append_assoc v.before (x ∷ v.after) (y ∷ []));
        scored = rw (← e) v.scored;
        smaller = rw (← e) v.smaller;
        not_greater =
            All-append (IsAtMost s) v.after (y ∷ []) (rw (← e) v.not_greater) ((t, h, g), tt);
      },
      refl,
    )
  ]

  best_of-IsFirstMax :
      (xs items : List T) (p : T × ℤ) (v : IsFirstMax items p.0) {r : T}
      → v.best ≡ p.1
      → best_of score p xs ≡ ok r
      → IsFirstMax (items ++ xs) r
  unfolding best_of
  best_of-IsFirstMax [] items p v {r} e h =
      let q : p.0 ≡ r = ground arith in
      subst (λ l. IsFirstMax l r) (sym (append_nil items)) (subst (IsFirstMax items) q v)
  best_of-IsFirstMax (x ∷ xs) items p v {r} e h =
      let (s, q, k) = >>=-eq-ok (score x) _ h in
      let (w, f) = FirstMax-better items p.0 x p.1 s v e q in
      subst (λ l. IsFirstMax l r) (append_assoc items (x ∷ []) xs)
        (best_of-IsFirstMax xs (items ++ x ∷ []) (better p x s) w f k)

  -- The item that SelectMax returns is the first one of the greatest score: every item before it has
  -- a lower score, and no item after it has a higher one.
  pub select_max-IsFirstMax :
      (items : List T) {r : T} → select_max score items ≡ ok r → IsFirstMax items r
  unfolding select_max
  select_max-IsFirstMax [] h = absurd (ground arith)
  select_max-IsFirstMax (x ∷ xs) h =
      let (s, q, k) = >>=-eq-ok (score x) _ h in
      best_of-IsFirstMax xs (x ∷ []) (x, s)
        (record {
          before = [];
          after = [];
          best = s;
          split_at = refl;
          scored = q;
          smaller = tt;
          not_greater = tt;
        })
        refl k

-- ResolveOne without a choice among several items is ExactlyOne, which returns an item exactly if it is
-- the only one.
pub resolve_one-exactly_one :
    {T : Type 0} (items : List T) (f : Option (List T → Result Text T)) (n m : Text) (x : T)
    → (resolve_one items false f n m ≡ exactly_one items n m)
      × ((exactly_one items n m ≡ ok x) ↔ (items ≡ x ∷ []))
unfolding resolve_one exactly_one
resolve_one-exactly_one [] f n m x =
    (refl, (λ h. absurd (ground arith), λ h. absurd (ground arith)))
resolve_one-exactly_one (y ∷ []) f n m x = (refl, (λ h. ground arith, λ h. ground arith))
resolve_one-exactly_one (y ∷ z ∷ ys) f n m x =
    (refl, (λ h. absurd (ground arith), λ h. absurd (ground arith)))
