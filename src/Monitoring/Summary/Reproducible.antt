-- ===== src/Monitoring/Summary/Reproducible.antt =====
-- The summary does not depend on the order of the rows.
use mathlib.Core.List.{Permᴰ}
use mathlib.Core.Path.{subst}
use fast_api_layers.Prelude.{
  ℕ, suc, ◌-◌, ◌≡◌, refl, sym, ap, ◌∙◌, true, false, Bool-cases, inl, inr, List, [], ◌∷◌, ◌*◌,
  arith, length, All, if◌then◌else◌, nat_eq,
}
use fast_api_layers.Effect.{ok}
use fast_api_layers.Monitoring.Floats.{Floats, half}
use fast_api_layers.Monitoring.Summary.{
  insert, sorted, percentile, item_at, interpolate, average, Samples, performance_summary, q95, q99,
}
use fast_api_layers.Platform.{Host, World, utc_now}

-- The comparison is a strict order of the values `P`, of which no two different ones are level.
-- Floats are that without the values that are no numbers and without the negative zero.
pub record IsOrdered ⦃f : Floats⦄ (P : ℕ → Type 0) : Type 0 where
  pub asym : (a b : ℕ) → P a → P b → f.lt a b ≡ true → f.lt b a ≡ false
  pub trans : (a b c : ℕ) → P a → P b → P c → f.lt a b ≡ true → f.lt b c ≡ true → f.lt a c ≡ true
  pub connected : (a b : ℕ) → P a → P b → f.lt a b ≡ false → f.lt b a ≡ false → a ≡ b

length-Perm : {xs ys : List ℕ} → Permᴰ xs ys → length xs ≡ length ys
length-Perm Permᴰ.nil = refl
length-Perm (Permᴰ.cons e p) = ap (λ n. suc n) (length-Perm p)
length-Perm (Permᴰ.swap e e') = refl
length-Perm (Permᴰ.trans p q) = length-Perm p ∙ length-Perm q

module _ ⦃f : Floats⦄ {P : ℕ → Type 0} (order : IsOrdered P) where
  -- what stands below a value stands below what is above the value
  below : (a b x : ℕ) → P a → P b → P x → f.lt x a ≡ true → f.lt x b ≡ false → f.lt b a ≡ true
  below a b x pa pb px lt ge = elim (Bool-cases (f.lt b a)) [
    | inl e ↦ e
    | inr e ↦ elim (Bool-cases (f.lt a b)) [
      | inl e1 ↦ let le = order.trans x a b px pa pb lt e1 in cc
      | inr e1 ↦ let same = order.connected a b pa pb e1 e in cc
    ]
  ]

  insert-below : (a x : ℕ) (xs : List ℕ) → f.lt x a ≡ true → insert a (x ∷ xs) ≡ x ∷ insert a xs
  unfolding insert
  insert-below a x xs e = rw e

  insert-first : (a x : ℕ) (xs : List ℕ) → f.lt x a ≡ false → insert a (x ∷ xs) ≡ a ∷ x ∷ xs
  unfolding insert
  insert-first a x xs e = rw e

  -- two values into a list that neither stands behind the first of
  insert_comm_first :
      (a b : ℕ) (xs : List ℕ)
      → P a
      → P b
      → insert a xs ≡ a ∷ xs
      → insert b xs ≡ b ∷ xs
      → insert a (b ∷ xs) ≡ insert b (a ∷ xs)
  insert_comm_first a b xs pa pb ea eb = elim (Bool-cases (f.lt b a)) [
    | inl e ↦
        insert-below a b xs e
        ∙ ap (λ l. b ∷ l) ea
        ∙ sym (insert-first b a xs (order.asym b a pb pa e))
    | inr e ↦ elim (Bool-cases (f.lt a b)) [
      | inl e1 ↦ insert-first a b xs e ∙ sym (insert-below b a xs e1 ∙ ap (λ l. a ∷ l) eb)
      | inr e1 ↦
          let same = order.connected a b pa pb e1 e in
          rw (insert-first a b xs e, insert-first b a xs e1, same)
    ]
  ]

  -- two values of which the first of a list stands between
  insert_comm_between :
      (a b x : ℕ) (xs : List ℕ)
      → P a
      → P b
      → P x
      → f.lt x a ≡ true
      → f.lt x b ≡ false
      → insert a (insert b (x ∷ xs)) ≡ insert b (insert a (x ∷ xs))
  insert_comm_between a b x xs pa pb px lt ge =
      ap (insert a) (insert-first b x xs ge)
      ∙ insert-below a b (x ∷ xs) (below a b x pa pb px lt ge)
      ∙ ap (λ l. b ∷ l) (insert-below a x xs lt)
      ∙ sym (ap (insert b) (insert-below a x xs lt) ∙ insert-first b x (insert a xs) ge)

  insert_comm :
      (a b : ℕ) (xs : List ℕ)
      → P a
      → P b
      → All P xs
      → insert a (insert b xs) ≡ insert b (insert a xs)
  unfolding insert
  insert_comm a b [] pa pb ps = insert_comm_first a b [] pa pb refl refl
  insert_comm a b (x ∷ xs) pa pb (px, ps) = elim (Bool-cases (f.lt x a)) [
    | inl ea ↦ elim (Bool-cases (f.lt x b)) [
      | inl eb ↦
          ap (insert a) (insert-below b x xs eb)
          ∙ insert-below a x (insert b xs) ea
          ∙ ap (λ l. x ∷ l) (insert_comm a b xs pa pb ps)
          ∙ sym (ap (insert b) (insert-below a x xs ea) ∙ insert-below b x (insert a xs) eb)
      | inr eb ↦ insert_comm_between a b x xs pa pb px ea eb
    ]
    | inr ea ↦ elim (Bool-cases (f.lt x b)) [
      | inl eb ↦ sym (insert_comm_between b a x xs pb pa px eb ea)
      | inr eb ↦
          ap (insert a) (insert-first b x xs eb)
          ∙ insert_comm_first a b (x ∷ xs) pa pb (insert-first a x xs ea) (insert-first b x xs eb)
          ∙ sym (ap (insert b) (insert-first a x xs ea))
    ]
  ]

  All-insert : (a : ℕ) (xs : List ℕ) → P a → All P xs → All P (insert a xs)
  unfolding insert
  All-insert a [] pa ps = (pa, tt)
  All-insert a (x ∷ xs) pa (px, ps) = elim (Bool-cases (f.lt x a)) [
    | inl e ↦ rw e (px, All-insert a xs pa ps)
    | inr e ↦ rw e (pa, (px, ps))
  ]

  All-sorted : (xs : List ℕ) → All P xs → All P (sorted xs)
  unfolding sorted
  All-sorted [] ps = tt
  All-sorted (x ∷ xs) (px, ps) = All-insert x (sorted xs) px (All-sorted xs ps)

  All-Perm : {xs ys : List ℕ} → Permᴰ xs ys → All P xs → All P ys
  All-Perm Permᴰ.nil ps = tt
  All-Perm (Permᴰ.cons e p) (px, ps) = (subst P e px, All-Perm p ps)
  All-Perm (Permᴰ.swap e e') (pa, (pb, ps)) = (subst P e' pb, (subst P e pa, ps))
  All-Perm (Permᴰ.trans p q) ps = All-Perm q (All-Perm p ps)

  sorted-Perm : {xs ys : List ℕ} → Permᴰ xs ys → All P xs → sorted xs ≡ sorted ys
  unfolding sorted
  sorted-Perm Permᴰ.nil ps = refl
  sorted-Perm (Permᴰ.cons {a} {b} e p) (px, ps) = rw e (ap (insert b) (sorted-Perm p ps))
  sorted-Perm (Permᴰ.swap {a} {b} {a'} {b'} {l} e e') (pa, (pb, ps)) =
      insert_comm a b (sorted l) pa pb (All-sorted l ps) ∙ rw (e, e')
  sorted-Perm (Permᴰ.trans p q) ps = sorted-Perm p ps ∙ sorted-Perm q (All-Perm p ps)

  percentile-Perm :
      (xs ys : List ℕ) (q : ℕ) → Permᴰ xs ys → All P xs → percentile xs q ≡ percentile ys q
  unfolding percentile
  percentile-Perm [] [] q p ps = refl
  percentile-Perm [] (y ∷ ys) q p ps = absurd (omega (arith, length-Perm p))
  percentile-Perm (x ∷ xs) [] q p ps = absurd (omega (arith, length-Perm p))
  percentile-Perm (x ∷ xs) (y ∷ ys) q p ps =
      ap (λ ordered. if nat_eq (length ordered) 1 then item_at ordered 0 else interpolate ordered q)
        (sorted-Perm p ps)

  average-Perm :
      ((xs ys : List ℕ) → Permᴰ xs ys → f.mean xs ≡ f.mean ys)
      → (xs ys : List ℕ) → Permᴰ xs ys
      → All P xs
      → average xs ≡ average ys
  unfolding average
  average-Perm mean_eq [] [] p ps = refl
  average-Perm mean_eq [] (y ∷ ys) p ps = absurd (omega (arith, length-Perm p))
  average-Perm mean_eq (x ∷ xs) [] p ps = absurd (omega (arith, length-Perm p))
  average-Perm mean_eq (x ∷ xs) (y ∷ ys) p ps = ap (λ m. ok m) (mean_eq (x ∷ xs) (y ∷ ys) p)

  -- Where the comparison is a strict order of the samples and the mean of a list does not depend on
  -- its order, the summary of performance is the same, for any window, when the database gives the
  -- samples in another order.
  pub performance_summary-Perm :
      ⦃h : Host⦄
      → ((xs ys : List ℕ) → Permᴰ xs ys → f.mean xs ≡ f.mean ys)
      → (samples : Samples) (reordered : ℕ → List ℕ)
      → ((start : ℕ) → Permᴰ (samples.latencies start) (reordered start))
      → ((start : ℕ) → All P (samples.latencies start))
      → (window_minutes : ℕ) (w : World)
      → performance_summary samples window_minutes w
        ≡ performance_summary (record samples { latencies = reordered }) window_minutes w
  unfolding performance_summary utc_now
  performance_summary-Perm ⦃h⦄ mean_eq samples reordered perm plain window_minutes w =
      let start = h.now w.clock - window_minutes * 60000000 in
      let at_q : (q : ℕ) → percentile (samples.latencies start) q ≡ percentile (reordered start) q =
        λ q.
          percentile-Perm (samples.latencies start) (reordered start) q (perm start)
            (plain start) in
      rw (
        at_q half,
        at_q q95,
        at_q q99,
        average-Perm mean_eq (samples.latencies start) (reordered start) (perm start) (plain start),
      )
