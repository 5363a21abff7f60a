-- ===== src/DList/Tests.antt =====
-- The lists of src/data_structures/dlist.cpp at a ring of a head and two nodes.
use custom_redis.Base.{◌+◌, ◌-◌, ◌==◌, if◌then◌else◌, ◌≡◌, refl, [], ◌∷◌, ◌++◌, arith, false}
use custom_redis.DList.{Links, dlist_init, dlist_empty, dlist_deatach, dlist_insert_before}
use custom_redis.DList.Deatach.{deatach-IsRing}
use custom_redis.DList.Ring.{
  IsRing, Chain, AreDistinct, insert_before-IsRing, init-IsRing, dlist_empty_lem,
}

-- The head 1 and the nodes 2 and 3.
abbrev ring : Links
ring = record { prev = λ q. if q == 1 then 3 else q - 1; next = λ q. if q == 3 then 1 else q + 1 }

ring-IsRing : IsRing ring 1 (2 ∷ 3 ∷ [])
unfolding Chain AreDistinct
ring-IsRing = record {
  chain = ((refl, refl), ((refl, refl), (refl, refl)));
  distinct = (((λ e. omega arith), ((λ e. omega arith), tt)), (((λ e. omega arith), tt), (tt, tt)));
  non_null = ((λ e. omega arith), ((λ e. omega arith), ((λ e. omega arith), tt)));
}

init-IsRing_example : IsRing (dlist_init ring 7) 7 []
init-IsRing_example = init-IsRing ring 7 (λ e. omega arith)

insert_before-IsRing_example : IsRing (dlist_insert_before ring 1 4) 1 ((2 ∷ 3 ∷ []) ++ (4 ∷ []))
insert_before-IsRing_example =
    insert_before-IsRing ring 1 4 (2 ∷ 3 ∷ []) ring-IsRing
      ((λ e. omega arith), ((λ e. omega arith), ((λ e. omega arith), tt))) (λ e. omega arith)

deatach-IsRing_example : IsRing (dlist_deatach ring 2) 1 ([] ++ (3 ∷ []))
deatach-IsRing_example = deatach-IsRing ring 1 2 [] (3 ∷ []) ring-IsRing

dlist_empty_lem_example : dlist_empty ring 1 ≡ false
dlist_empty_lem_example = dlist_empty_lem ring 1 2 (3 ∷ []) ring-IsRing
