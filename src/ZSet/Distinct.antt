-- ===== src/ZSet/Distinct.antt =====
-- Nodes of a sorted set that differ in their addresses and keys, and a probe of them by key:
-- src/data_structures/zset.cpp.
use custom_redis.Base.{
  ℕ, ◌≡◌, refl, sym, ap, ◌∙◌, ◌⊎◌, inl, inr, Bool, true, false, Bool-cases, ◌||◌, bytes_eq_refl,
  List, [], ◌∷◌, ◌++◌, All, map, if◌then◌else◌, arith,
}
use custom_redis.Wire.{Bytes}
use custom_redis.HashMap.{c_str, matches}
use custom_redis.HashMap.Hits.{hits, hits-nil, hits-cons}
use custom_redis.HashMap.Probes.{matches-parts, matches_congr}
use custom_redis.ZSet.{ZNode, h_node, same_node}
use custom_redis.ZSet.Order.{All-append, All-left, All-right, All-imp}

abbrev pub hits_key : Bytes → ℕ → ZNode → Bool
hits_key key hcode z = matches key hcode (h_node z)

abbrev pub Missed : Bytes → ℕ → ZNode → Type 0
Missed key hcode z = hits_key key hcode z ≡ false

-- Two objects, with keys that no probe takes for the same.
abbrev pub Apart : ZNode → ZNode → Type 0
Apart x y = (same_node x y ≡ false) × Missed x.key x.hcode y

abbrev pub IsDistinct : List ZNode → Type 0
IsDistinct [] = Unit
IsDistinct (x ∷ xs) = All (Apart x) xs × IsDistinct xs

hits_key_congr :
    (key : Bytes) (hcode : ℕ) (x y : ZNode)
    → hits_key key hcode x ≡ true
    → hits_key key hcode y ≡ hits_key x.key x.hcode y
unfolding h_node
hits_key_congr key hcode x y e =
    let (p, q) = matches-parts key hcode (h_node x) e in
    matches_congr key hcode x.key x.hcode (h_node y) (sym p) q

pub hits_key-same : (z : ZNode) → hits_key z.key z.hcode z ≡ true
unfolding matches h_node
hits_key-same z = rw (bytes_eq_refl (c_str z.key)) (ground arith)

Apart-sym : (x y : ZNode) → Apart x y → Apart y x
unfolding same_node
Apart-sym x y (p, q) = (
  ground arith,
  elim (Bool-cases (hits_key y.key y.hcode x)) [
    | inr miss ↦ miss
    | inl hit ↦
        let e : true ≡ false = sym (hits_key-same y) ∙ hits_key_congr y.key y.hcode x y hit ∙ q in
        cc
  ],
)

pub IsDistinct-around :
    (before after : List ZNode) (z : ZNode)
    → IsDistinct (before ++ (z ∷ after))
    → All (Apart z) before × All (Apart z) after × IsDistinct (before ++ after)
IsDistinct-around [] after z d = (tt, d.0, d.1)
IsDistinct-around (x ∷ before) after z d =
    let (b, a, rest) = IsDistinct-around before after z d.1 in
    let far = All-right (Apart x) before (z ∷ after) d.0 in
    (
      (Apart-sym x z far.0, b),
      a,
      (All-append (Apart x) before after (All-left (Apart x) before (z ∷ after) d.0) far.1, rest),
    )

pub IsDistinct-with :
    (before after : List ZNode) (z : ZNode)
    → IsDistinct (before ++ after)
    → All (Apart z) before
    → All (Apart z) after
    → IsDistinct (before ++ (z ∷ after))
IsDistinct-with [] after z d b a = (a, d)
IsDistinct-with (x ∷ before) after z d b a = (
  All-append (Apart x) before (z ∷ after) (All-left (Apart x) before after d.0)
      (Apart-sym z x b.0, All-right (Apart x) before after d.0),
  IsDistinct-with before after z d.1 b.1 a,
)

module _ (key : Bytes) (hcode : ℕ) where
  -- The nodes with another key.
  abbrev pub others : List ZNode → List ZNode
  others [] = []
  others (x ∷ xs) = if hits_key key hcode x then others xs else x ∷ others xs

  abbrev pub has_key : List ZNode → Bool
  has_key [] = false
  has_key (x ∷ xs) = hits_key key hcode x || has_key xs

  -- What a probe of distinct nodes finds: no node, or the one among them.
  pub record Absent (xs : List ZNode) : Type 0 where
    pub none_hit : hits key hcode (map h_node xs) ≡ []
    pub all_others : others xs ≡ xs
    pub no_key : has_key xs ≡ false
    pub missed : All (Missed key hcode) xs

  pub record Present (xs : List ZNode) : Type 0 where
    pub before : List ZNode
    pub znode : ZNode
    pub after : List ZNode
    pub split : xs ≡ before ++ (znode ∷ after)
    pub one_hit : hits key hcode (map h_node xs) ≡ h_node znode ∷ []
    pub rest : others xs ≡ before ++ after
    pub key_there : has_key xs ≡ true
    pub same_key : hits_key key hcode znode ≡ true
    pub missed : All (Missed key hcode) (before ++ after)

  pub absent : (xs : List ZNode) → All (Missed key hcode) xs → Absent xs
  absent [] m = record {
    none_hit = hits-nil key hcode;
    all_others = refl;
    no_key = refl;
    missed = tt;
  }
  absent (x ∷ xs) m =
      let w = absent xs m.1 in
      record {
        none_hit = rw (hits-cons key hcode (h_node x) (map h_node xs), m.0) w.none_hit;
        all_others = rw m.0 (ap (◌∷◌ x) w.all_others);
        no_key = rw m.0 w.no_key;
        missed = m;
      }

  pub probe : (xs : List ZNode) → IsDistinct xs → Absent xs ⊎ Present xs
  probe [] d = inl (absent [] tt)
  probe (x ∷ xs) d = elim (Bool-cases (hits_key key hcode x)) [
    | inl hit ↦
        let w = absent xs (
          All-imp (Apart x) (Missed key hcode) xs
            (λ y far. hits_key_congr key hcode x y hit ∙ far.1) d.0) in
        inr (record {
          before = [];
          znode = x;
          after = xs;
          split = refl;
          one_hit = rw (hits-cons key hcode (h_node x) (map h_node xs), hit, w.none_hit) refl;
          rest = rw hit w.all_others;
          key_there = rw hit refl;
          same_key = hit;
          missed = w.missed;
        })
    | inr miss ↦ elim (probe xs d.1) [
      | inl w ↦ inl (absent (x ∷ xs) (miss, w.missed))
      | inr w ↦ inr (record {
        before = x ∷ w.before;
        znode = w.znode;
        after = w.after;
        split = ap (◌∷◌ x) w.split;
        one_hit = rw (hits-cons key hcode (h_node x) (map h_node xs), miss) w.one_hit;
        rest = rw miss (ap (◌∷◌ x) w.rest);
        key_there = rw miss w.key_there;
        same_key = w.same_key;
        missed = (miss, w.missed);
      })
    ]
  ]
