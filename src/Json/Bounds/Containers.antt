-- ===== src/Json/Bounds/Containers.antt =====
-- The loops of the parser of src/laige-core/json.cpp, within their fuel.
use laige_cpp.Prelude.{
  ℕ, zero, suc, ◌+◌, ◌*◌, ◌≤◌, ◌<◌, ◌≡◌, arith, true, false, leb, Bool-cases, inl, inr, Option,
  none, some, List, [], ◌∷◌, length,
}
use laige_cpp.Json.Values.{
  Items, Members, null, bool, array, object, no_items, item, no_members, member, find_in, set_in,
  append_item, same_text,
}
use laige_cpp.Json.Doubles.{Doubles}
use laige_cpp.Json.Outcome.{failed}
use laige_cpp.Json.Parser.{
  Json, Parsed, skip_whitespace, consume, dispatch, parse_object, parse_array, next_item,
  next_member, add_member, parse_value, parse_items, parse_members, MembersParser, ItemsParser,
  colon, true_text, false_text, null_text,
}
use laige_cpp.Json.RoundTrip.Sizes.{nesting, nesting_items, nesting_members}
use laige_cpp.Json.Bounds.Steps.{
  length-skip_whitespace, consume_left, Within, fails, leaves, weaken, if-Within, option-Within,
  then-Within, literal-Within, number-Within, text-Within, string-Within,
}

module _ (d : Doubles) (most : ℕ) where
  nesting-append_item :
      (xs : Items d.Number) (x : Json d) (n : ℕ)
      → n + nesting_items d xs ≤ most
      → n + nesting d x ≤ most
      → n + nesting_items d (append_item xs x) ≤ most
  unfolding nesting append_item
  nesting-append_item no_items x n p q = omega arith
  nesting-append_item (item y ys) x n p q =
      let l = nesting-append_item ys x n (omega arith) q in omega arith

  nesting-set_in :
      (key : List ℕ) (v : Json d) (ms : Members d.Number) (n : ℕ)
      → n + nesting_members d ms ≤ most
      → n + nesting d v ≤ most
      → n + nesting_members d (set_in key v ms) ≤ most
  unfolding nesting set_in
  nesting-set_in key v no_members n p q = omega arith
  nesting-set_in key v (member k w ms) n p q =
      let l = nesting-set_in key v ms n (omega arith) q in
      elim (Bool-cases (same_text k key)) [
        | inl e ↦ rw e (omega arith)
        | inr e ↦ rw e (omega arith)
      ]

  -- What the parsers of the elements and the members are to do, for fewer bytes than some number.
  abbrev ItemsWithin : ItemsParser d → ℕ → ℕ → Type 0
  ItemsWithin items depth n =
      (xs : Items d.Number) (bs : List ℕ)
      → length bs < n
      → depth + 1 + nesting_items d xs ≤ most
      → Within d most depth (length bs) (items (depth + 1) xs bs)

  abbrev MembersWithin : MembersParser d → ℕ → ℕ → Type 0
  MembersWithin members depth n =
      (ms : Members d.Number) (bs : List ℕ)
      → length bs < n
      → depth + 1 + nesting_members d ms ≤ most
      → Within d most depth (length bs) (members (depth + 1) ms bs)

  array-Within :
      (items : ItemsParser d) (depth n : ℕ) (bs : List ℕ)
      → length bs < n
      → ItemsWithin items depth n
      → Within d most depth n (parse_array d items most depth bs)
  unfolding parse_array nesting
  array-Within items depth n bs l h =
      let s = length-skip_whitespace bs in
      if-Within d most depth n (leb (depth + 1) most)
        (λ e.
          option-Within d most depth n _ _ _
            (weaken d most depth _ n (h no_items (skip_whitespace bs) (omega arith) (ground arith))
              (omega arith))
            (λ rest c.
              leaves (array no_items) rest (omega (arith, consume_left _ _ _ c)) (ground arith)))
        fails

  object-Within :
      (members : MembersParser d) (depth n : ℕ) (bs : List ℕ)
      → length bs < n
      → MembersWithin members depth n
      → Within d most depth n (parse_object d members most depth bs)
  unfolding parse_object nesting
  object-Within members depth n bs l h =
      let s = length-skip_whitespace bs in
      if-Within d most depth n (leb (depth + 1) most)
        (λ e.
          option-Within d most depth n _ _ _
            (weaken d most depth _ n
              (h no_members (skip_whitespace bs) (omega arith) (ground arith)) (omega arith))
            (λ rest c.
              leaves (object no_members) rest (omega (arith, consume_left _ _ _ c)) (ground arith)))
        fails

  dispatch-Within :
      (members : MembersParser d) (items : ItemsParser d) (depth : ℕ) (bs : List ℕ)
      → depth ≤ most
      → MembersWithin members depth (length bs)
      → ItemsWithin items depth (length bs)
      → Within d most depth (length bs) (dispatch d members items most depth bs)
  unfolding dispatch nesting
  dispatch-Within members items depth [] l ms is = fails
  dispatch-Within members items depth (c ∷ bs) l ms is =
      let n = length (c ∷ bs) in
      if-Within d most depth n _ (λ e. object-Within members depth n bs (omega arith) ms)
        (if-Within d most depth n _ (λ e. array-Within items depth n bs (omega arith) is)
          (if-Within d most depth n _ (λ e. text-Within d most depth (c ∷ bs) l)
            (if-Within d most depth n _
              (λ e. literal-Within d most depth true_text (bool true) (c ∷ bs) (omega arith))
              (if-Within d most depth n _
                (λ e. literal-Within d most depth false_text (bool false) (c ∷ bs) (omega arith))
                (if-Within d most depth n _
                  (λ e. literal-Within d most depth null_text null (c ∷ bs) (omega arith))
                  (if-Within d most depth n _ (λ e. number-Within d most depth (c ∷ bs) l)
                    fails))))))

  next_item-Within :
      (more : Items d.Number → List ℕ → Parsed d) (depth n : ℕ) (xs : Items d.Number) (bs : List ℕ)
      → length bs ≤ n
      → depth + 1 + nesting_items d xs ≤ most
      → ((cs : List ℕ) → length cs < n → Within d most depth (length cs) (more xs cs))
      → Within d most depth n (next_item d more xs bs)
  unfolding next_item nesting
  next_item-Within more depth n xs [] l p h = fails
  next_item-Within more depth n xs (c ∷ bs) l p h =
      if-Within d most depth n _
        (λ e. weaken d most depth (length bs) n (h bs (omega arith)) (omega arith))
        (if-Within d most depth n _ (λ e. leaves (array xs) bs (omega arith) (omega arith)) fails)

  next_member-Within :
      (more : Members d.Number → List ℕ → Parsed d) (depth n : ℕ) (ms : Members d.Number)
      (bs : List ℕ)
      → length bs ≤ n
      → depth + 1 + nesting_members d ms ≤ most
      → ((cs : List ℕ) → length cs < n → Within d most depth (length cs) (more ms cs))
      → Within d most depth n (next_member d more ms bs)
  unfolding next_member nesting
  next_member-Within more depth n ms [] l p h = fails
  next_member-Within more depth n ms (c ∷ bs) l p h =
      if-Within d most depth n _
        (λ e. weaken d most depth (length bs) n (h bs (omega arith)) (omega arith))
        (if-Within d most depth n _ (λ e. leaves (object ms) bs (omega arith) (omega arith)) fails)

  found-Within :
      (depth n : ℕ) (o : Option (Json d)) (x : Parsed d)
      → Within d most depth n x
      → Within d most depth n (elim o [ some old ↦ failed | none ↦ x ])
  found-Within depth n none x h = h
  found-Within depth n (some old) x h = fails

  mutual
    unfolding parse_value add_member

    pub value-Within :
        (f depth : ℕ) (bs : List ℕ)
        → depth ≤ most
        → 2 * length bs + 1 ≤ f
        → Within d most depth (length bs) (parse_value d f most depth bs)
    value-Within zero depth bs l m = absurd (omega arith)
    value-Within (suc f) depth bs l m =
        let s = length-skip_whitespace bs in
        weaken d most depth _ (length bs)
          (dispatch-Within (parse_members d f most) (parse_items d f most) depth
            (skip_whitespace bs) l (λ ms cs q r. members-Within f depth ms cs (omega arith) r)
            (λ xs cs q r. items-Within f depth xs cs (omega arith) r))
          s

    items-Within :
        (f depth : ℕ) (xs : Items d.Number) (bs : List ℕ)
        → 2 * length bs + 2 ≤ f
        → depth + 1 + nesting_items d xs ≤ most
        → Within d most depth (length bs) (parse_items d f most (depth + 1) xs bs)
    items-Within zero depth xs bs m p = absurd (omega arith)
    items-Within (suc f) depth xs bs m p =
        then-Within d most (depth + 1) (length bs) depth (length bs) _ _
          (value-Within f (depth + 1) bs (omega arith) (omega arith))
          (λ x ts q r.
            let s = length-skip_whitespace ts in
            let p' = nesting-append_item xs x (depth + 1) p r in
            next_item-Within (parse_items d f most (depth + 1)) depth (length bs) _ _ (omega arith)
              p' (λ cs o. items-Within f depth (append_item xs x) cs (omega arith) p'))

    members-Within :
        (f depth : ℕ) (ms : Members d.Number) (bs : List ℕ)
        → 2 * length bs + 2 ≤ f
        → depth + 1 + nesting_members d ms ≤ most
        → Within d most depth (length bs) (parse_members d f most (depth + 1) ms bs)
    members-Within zero depth ms bs m p = absurd (omega arith)
    members-Within (suc f) depth ms bs m p =
        let s = length-skip_whitespace bs in
        string-Within d most depth (length bs) (skip_whitespace bs) _
          (λ key ts (k : length ts < length (skip_whitespace bs)).
            let s' = length-skip_whitespace ts in
            option-Within d most depth (length bs) (consume colon (skip_whitespace ts)) _ _ fails
              (λ (us : List ℕ) (c : consume colon (skip_whitespace ts) ≡ some us).
                let u = consume_left colon _ us c in
                then-Within d most (depth + 1) (length us) depth (length bs) _ _
                  (value-Within f (depth + 1) us (omega arith) (omega arith))
                  (λ v ws q r.
                    let s'' = length-skip_whitespace ws in
                    let p' = nesting-set_in key v ms (depth + 1) p r in
                    found-Within depth (length bs) (find_in key ms) _ (
                      next_member-Within (parse_members d f most (depth + 1)) depth (length bs) _ _
                        (omega arith) p'
                        (λ cs o. members-Within f depth (set_in key v ms) cs (omega arith) p')))))
