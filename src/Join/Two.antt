-- ===== src/Join/Two.antt =====
-- The join of two sequences holds exactly the keys that both have.
use Prim.Native.Nat.{Ordering}
use evobench.Prelude.{
  ◌≡◌, ◌≢◌, refl, sym, ap, ◌∙◌, ◌⊎◌, Option, none, some, List, [], ◌∷◌, All, All-map,
  Ordering-cases, inl, inr, map,
}
use mathlib.Core.Path.{subst}
use evobench.Join.{KeyVal, left, right, MergeJoin, on_both, keyval_inner_join_2}

-- An order of the keys.
pub record IsOrder {K : Type 0} (cmp : K → K → Ordering) : Type 0 where
  pub equal_keys : (a b : K) → cmp a b ≡ Ordering.eq → a ≡ b
  pub same_key : (a : K) → cmp a a ≡ Ordering.eq
  pub converse : (a b : K) → cmp a b ≡ Ordering.gt → cmp b a ≡ Ordering.lt
  pub lt_trans : (a b c : K) → cmp a b ≡ Ordering.lt → cmp b c ≡ Ordering.lt → cmp a c ≡ Ordering.lt

module _ {K : Type 0} (cmp : K → K → Ordering) (order : IsOrder cmp) where
  abbrev pub Above : {V : Type 0} → K → List (KeyVal K V) → Type 0
  Above k kvs = All (λ kv. cmp k (kv.key) ≡ Ordering.lt) kvs

  -- The keys ascend, and none is there twice.
  abbrev pub Ascending : {V : Type 0} → List (KeyVal K V) → Type 0
  Ascending [] = Unit
  Ascending (kv ∷ kvs) = Above (kv.key) kvs × Ascending kvs

  unfoldable pub find : {V : Type 0} → K → List (KeyVal K V) → Option V
  find k [] = none
  find k (kv ∷ kvs) = elim (cmp (kv.key) k) [
    | Ordering.eq ↦ some (kv.val)
    | Ordering.lt ↦ find k kvs
    | Ordering.gt ↦ find k kvs
  ]

  abbrev pub zip_option : {V1 V2 : Type 0} → Option V1 → Option V2 → Option (V1 × V2)
  zip_option none w = none
  zip_option (some v) none = none
  zip_option (some v) (some w) = some (v, w)

  -- A key below all of a sequence is not in it.
  find-Above : {V : Type 0} (k : K) (kvs : List (KeyVal K V)) → Above k kvs → find k kvs ≡ none
  unfolding find
  find-Above k [] h = refl
  find-Above k (kv ∷ kvs) (h, hs) = elim (Ordering-cases (cmp (kv.key) k)) [
    | inl e ↦ rw (e, find) (find-Above k kvs hs)
    | inr (inl e) ↦ absurd (cc (order.same_key k, h, order.equal_keys (kv.key) k e))
    | inr (inr e) ↦ rw (e, find) (find-Above k kvs hs)
  ]

  Above-trans :
      {V : Type 0} (a b : K) (kvs : List (KeyVal K V))
      → cmp a b ≡ Ordering.lt
      → Above b kvs
      → Above a kvs
  Above-trans a b kvs lt h = All-map kvs (λ kv p. order.lt_trans a b (kv.key) lt p) h

  find_here :
      {V : Type 0} (k : K) (kv : KeyVal K V) (kvs : List (KeyVal K V))
      → kv.key ≡ k
      → find k (kv ∷ kvs) ≡ some (kv.val)
  unfolding find
  find_here k kv kvs e =
      let h : cmp (kv.key) k ≡ Ordering.eq = ap (λ x. cmp x k) e ∙ order.same_key k in
      rw (h, find) refl

  -- Another key is passed over, whatever the value.
  find_other :
      {V : Type 0} (k : K) (kv : KeyVal K V) (kvs : List (KeyVal K V))
      → cmp (kv.key) k ≢ Ordering.eq
      → find k (kv ∷ kvs) ≡ find k kvs
  unfolding find
  find_other k kv kvs n = elim (Ordering-cases (cmp (kv.key) k)) [
    | inl e ↦ rw (e, find) refl
    | inr (inl e) ↦ absurd (n e)
    | inr (inr e) ↦ rw (e, find) refl
  ]

  key_cases : (k0 k : K) → (k0 ≡ k) ⊎ (cmp k0 k ≢ Ordering.eq)
  key_cases k0 k = elim (Ordering-cases (cmp k0 k)) [
    | inl e ↦ inr (λ f. cc (e, f))
    | inr (inl e) ↦ inl (order.equal_keys k0 k e)
    | inr (inr e) ↦ inr (λ f. cc (e, f))
  ]

  zip-none : {V1 V2 : Type 0} (o : Option V1) → zip_option {V2 = V2} o none ≡ none
  zip-none none = refl
  zip-none (some v) = refl

  module _ (itertools : MergeJoin) {V1 V2 : Type 0} where
    joined : List (KeyVal K V1) → List (KeyVal K V2) → List (KeyVal K (V1 × V2))
    joined as' bs = keyval_inner_join_2 itertools cmp as' bs

    -- What the join of two sequences is: it ascends, below no key that the first is not below, and has
    -- what both have.
    abbrev pub IsJoin : List (KeyVal K V1) → List (KeyVal K V2) → List (KeyVal K (V1 × V2)) → Type 0
    IsJoin as' bs js =
        Ascending js
        × (((k : K) → Above k as' → Above k js)
            × ((k : K) → find k js ≡ zip_option (find k as') (find k bs)))

    on_both-map-left :
        (as' : List (KeyVal K V1)) → on_both {K = K} {V1 = V1} {V2 = V2} (map left as') ≡ []
    unfolding on_both
    on_both-map-left [] = refl
    on_both-map-left (a ∷ as') = on_both-map-left as'

    on_both-map-right :
        (bs : List (KeyVal K V2)) → on_both {K = K} {V1 = V1} {V2 = V2} (map right bs) ≡ []
    unfolding on_both
    on_both-map-right [] = refl
    on_both-map-right (b ∷ bs) = on_both-map-right bs

    no_join-left : (bs : List (KeyVal K V2)) → joined [] bs ≡ []
    unfolding joined keyval_inner_join_2
    no_join-left bs = ap on_both (itertools.no_left _ bs) ∙ on_both-map-right bs

    no_join-right : (a : KeyVal K V1) (as' : List (KeyVal K V1)) → joined (a ∷ as') [] ≡ []
    unfolding joined keyval_inner_join_2
    no_join-right a as' = ap on_both (itertools.no_right _ a as') ∙ on_both-map-left (a ∷ as')

    join-less :
        (a : KeyVal K V1) (as' : List (KeyVal K V1)) (b : KeyVal K V2) (bs : List (KeyVal K V2))
        → cmp (a.key) (b.key) ≡ Ordering.lt
        → joined (a ∷ as') (b ∷ bs) ≡ joined as' (b ∷ bs)
    unfolding joined keyval_inner_join_2 on_both
    join-less a as' b bs e = ap on_both (itertools.less _ a as' b bs e)

    join-equal :
        (a : KeyVal K V1) (as' : List (KeyVal K V1)) (b : KeyVal K V2) (bs : List (KeyVal K V2))
        → cmp (a.key) (b.key) ≡ Ordering.eq
        → joined (a ∷ as') (b ∷ bs) ≡ record { key = a.key; val = (a.val, b.val) } ∷ joined as' bs
    unfolding joined keyval_inner_join_2 on_both
    join-equal a as' b bs e = ap on_both (itertools.equal _ a as' b bs e)

    join-greater :
        (a : KeyVal K V1) (as' : List (KeyVal K V1)) (b : KeyVal K V2) (bs : List (KeyVal K V2))
        → cmp (a.key) (b.key) ≡ Ordering.gt
        → joined (a ∷ as') (b ∷ bs) ≡ joined (a ∷ as') bs
    unfolding joined keyval_inner_join_2 on_both
    join-greater a as' b bs e = ap on_both (itertools.greater _ a as' b bs e)

    nothing-IsJoin-left : (bs : List (KeyVal K V2)) → IsJoin [] bs (joined [] bs)
    unfolding find
    nothing-IsJoin-left bs = rw (no_join-left bs) (tt, (λ k h. tt, λ k. refl))

    nothing-IsJoin-right :
        (a : KeyVal K V1) (as' : List (KeyVal K V1)) → IsJoin (a ∷ as') [] (joined (a ∷ as') [])
    unfolding find
    nothing-IsJoin-right a as' =
        rw (no_join-right a as') (tt, (λ k h. tt, λ k. sym (zip-none (find k (a ∷ as')))))

    -- The first of the left sequence is below all of the right one.
    less-IsJoin :
        (a : KeyVal K V1) (as' : List (KeyVal K V1)) (b : KeyVal K V2) (bs : List (KeyVal K V2))
        → cmp (a.key) (b.key) ≡ Ordering.lt
        → Ascending (b ∷ bs)
        → IsJoin as' (b ∷ bs) (joined as' (b ∷ bs))
        → IsJoin (a ∷ as') (b ∷ bs) (joined (a ∷ as') (b ∷ bs))
    less-IsJoin a as' b bs lt (ab, _) (asc, (above, has)) =
        rw (join-less a as' b bs lt)
          (asc, (λ k h. above k h.1, λ k. has k ∙ found k (key_cases a.key k)))
      where
        found :
            (k : K)
            → (a.key ≡ k) ⊎ (cmp (a.key) k ≢ Ordering.eq)
            → zip_option (find k as') (find k (b ∷ bs))
              ≡ zip_option (find k (a ∷ as')) (find k (b ∷ bs))
        found k (inr n) = ap (λ o. zip_option o (find k (b ∷ bs))) (sym (find_other k a as' n))
        found k (inl e) =
            let nothing : find k (b ∷ bs) ≡ none =
              find-Above k (b ∷ bs)
                (subst (λ x. Above x (b ∷ bs)) e (lt, Above-trans a.key b.key bs lt ab)) in
            rw nothing (zip-none (find k as') ∙ sym (zip-none (find k (a ∷ as'))))

    greater-IsJoin :
        (a : KeyVal K V1) (as' : List (KeyVal K V1)) (b : KeyVal K V2) (bs : List (KeyVal K V2))
        → cmp (a.key) (b.key) ≡ Ordering.gt
        → Ascending (a ∷ as')
        → IsJoin (a ∷ as') bs (joined (a ∷ as') bs)
        → IsJoin (a ∷ as') (b ∷ bs) (joined (a ∷ as') (b ∷ bs))
    greater-IsJoin a as' b bs gt (aa, _) (asc, (above, has)) =
        rw (join-greater a as' b bs gt) (asc, (above, λ k. has k ∙ found k (key_cases b.key k)))
      where
        lt : cmp (b.key) (a.key) ≡ Ordering.lt
        lt = order.converse (a.key) (b.key) gt

        found :
            (k : K)
            → (b.key ≡ k) ⊎ (cmp (b.key) k ≢ Ordering.eq)
            → zip_option (find k (a ∷ as')) (find k bs)
              ≡ zip_option (find k (a ∷ as')) (find k (b ∷ bs))
        found k (inr n) = ap (λ o. zip_option (find k (a ∷ as')) o) (sym (find_other k b bs n))
        found k (inl e) =
            let nothing : find k (a ∷ as') ≡ none =
              find-Above k (a ∷ as')
                (subst (λ x. Above x (a ∷ as')) e (lt, Above-trans b.key a.key as' lt aa)) in
            rw nothing refl

    equal-IsJoin :
        (a : KeyVal K V1) (as' : List (KeyVal K V1)) (b : KeyVal K V2) (bs : List (KeyVal K V2))
        → cmp (a.key) (b.key) ≡ Ordering.eq
        → Ascending (a ∷ as')
        → IsJoin as' bs (joined as' bs)
        → IsJoin (a ∷ as') (b ∷ bs) (joined (a ∷ as') (b ∷ bs))
    equal-IsJoin a as' b bs eq (aa, _) (asc, (above, has)) =
        rw (join-equal a as' b bs eq)
          ((above a.key aa, asc), (λ k h. (h.0, above k h.1), λ k. found k (key_cases a.key k)))
      where
        same_keys : a.key ≡ b.key
        same_keys = order.equal_keys a.key b.key eq

        js : KeyVal K (V1 × V2)
        js = record { key = a.key; val = (a.val, b.val) }

        found :
            (k : K)
            → (a.key ≡ k) ⊎ (cmp (a.key) k ≢ Ordering.eq)
            → find k (js ∷ joined as' bs) ≡ zip_option (find k (a ∷ as')) (find k (b ∷ bs))
        found k (inl e) =
            find_here k js (joined as' bs) e
            ∙ sym (
                ap (λ o. zip_option o (find k (b ∷ bs))) (find_here k a as' e)
                ∙ ap (zip_option (some (a.val))) (find_here k b bs (sym same_keys ∙ e)))
        found k (inr n) =
            find_other k js (joined as' bs) n
            ∙ has k
            ∙ sym (
                ap (λ o. zip_option o (find k (b ∷ bs))) (find_other k a as' n)
                ∙ ap (zip_option (find k as'))
                    (find_other k b bs (λ f. n (ap (λ x. cmp x k) same_keys ∙ f))))

    with_first :
        (a : KeyVal K V1) (as' : List (KeyVal K V1))
        → ((bs : List (KeyVal K V2)) → Ascending bs → IsJoin as' bs (joined as' bs))
        → Ascending (a ∷ as')
        → (bs : List (KeyVal K V2)) → Ascending bs
        → IsJoin (a ∷ as') bs (joined (a ∷ as') bs)
    with_first a as' rest ha [] hb = nothing-IsJoin-right a as'
    with_first a as' rest ha (b ∷ bs) hb =
        let skipped = with_first a as' rest ha bs hb.1 in
        elim (Ordering-cases (cmp (a.key) (b.key))) [
          | inl e ↦ less-IsJoin a as' b bs e hb (rest (b ∷ bs) hb)
          | inr (inl e) ↦ equal-IsJoin a as' b bs e ha (rest bs hb.1)
          | inr (inr e) ↦ greater-IsJoin a as' b bs e ha skipped
        ]

    pub keyval_inner_join_2-IsJoin :
        (as' : List (KeyVal K V1)) (bs : List (KeyVal K V2))
        → Ascending as'
        → Ascending bs
        → IsJoin as' bs (keyval_inner_join_2 itertools cmp as' bs)
    unfolding joined
    keyval_inner_join_2-IsJoin [] bs ha hb = nothing-IsJoin-left bs
    keyval_inner_join_2-IsJoin (a ∷ as') bs ha hb =
        with_first a as' (λ bs' hb'. keyval_inner_join_2-IsJoin as' bs' ha.1 hb') ha bs hb
