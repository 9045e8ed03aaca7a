-- ===== src/Dict/Config/History.antt =====
-- The versions of a configuration key: numbered 1, 2, … in the order of their rows, and only the
-- newest is active.
use check.Common.{
  ℕ, pos, inc_int32, inc_int32-pos, suc, ◌+◌, ◌<◌, ◌≡◌, ◌≢◌, refl, sym, ap, ◌∙◌, String, Bool, true,
  false, not, Option, List, [], ◌∷◌, arith, str_eq, str_eq_iff, str_eq_refl, if◌then◌else◌, any, ok,
  update_where, insert_row, Bool-cases, inl, inr, with_tx-keeps, Option-cases,
}
use check.Dict.Defs.{Bytes, db_fault}
use check.Dict.Config.{
  AppConfig, ConfigTable, AppConfigUpdate, SwapConfigArgs, has_key, active, prev_version,
  deactivate, clashes, new_config, swap_body, put_config,
}

abbrev pub count : String → List AppConfig → ℕ
count key [] = 0
count key (r ∷ rs) = let n = count key rs in if has_key key r then suc n else n

-- From the row after version `k` on.
abbrev pub History : String → ℕ → List AppConfig → Type 0
History key k [] = Unit
History key k (r ∷ rs) =
    let rest = History key k rs in
    let next = History key (suc k) rs in
    if has_key key r
    then (r.version ≡ pos (suc k)) × (r.is_active ≡ not (any (has_key key) rs)) × next
    else rest

-- A key has a row exactly if its count is not 0.
count-zero : (key : String) (rs : List AppConfig) → any (has_key key) rs ≡ false → count key rs ≡ 0
count-zero key [] h = refl
count-zero key (r ∷ rs) h = ground (arith, count-zero key rs)

prev_version-zero :
    (key : String) (rs : List AppConfig)
    → any (has_key key) rs ≡ false
    → prev_version key rs ≡ pos 0
prev_version-zero key [] h = refl
prev_version-zero key (r ∷ rs) h = ground (arith, prev_version-zero key rs)

prev_version-count_from :
    (key : String) (k : ℕ) (rs : List AppConfig)
    → History key k rs
    → any (has_key key) rs ≡ true
    → prev_version key rs ≡ pos (k + count key rs)
prev_version-count_from key k [] h a = cc
prev_version-count_from key k (r ∷ rs) h a = ground (
  arith,
  prev_version-count_from key k rs,
  prev_version-count_from key (suc k) rs,
  count-zero key rs,
  prev_version-zero key rs,
)

-- The active version is the number of versions that the key has had.
pub prev_version-count :
    (key : String) (rs : List AppConfig)
    → History key 0 rs
    → prev_version key rs ≡ pos (count key rs)
prev_version-count key rs h = elim (Bool-cases (any (has_key key) rs)) [
  | inl e ↦ prev_version-count_from key 0 rs h e ∙ ground arith
  | inr e ↦ prev_version-zero key rs e ∙ sym (ap pos (count-zero key rs e))
]

any-insert :
    (key : String) (x : AppConfig) (rs : List AppConfig)
    → has_key key x ≡ true
    → any (has_key key) (insert_row x rs) ≡ true
any-insert key x [] e = rw e
any-insert key x (r ∷ rs) e = ground (arith, any-insert key x rs e)

module _ (key : String) (by : Option ℕ) where
  any-swap_ne :
      (key' : String) (x : AppConfig) (rs : List AppConfig)
      → has_key key' x ≡ false
      → any (has_key key') (insert_row x (update_where (active key) (deactivate by) rs))
        ≡ any (has_key key') rs
  any-swap_ne key' x [] e = ground arith
  any-swap_ne key' x (r ∷ rs) e = ground (arith, any-swap_ne key' x rs e)

  -- The swap adds the next version of its key, and makes it the only active one.
  History-swap :
      (k : ℕ) (x : AppConfig) (rs : List AppConfig)
      → has_key key x ≡ true
      → x.is_active ≡ true
      → x.version ≡ pos (suc (k + count key rs))
      → History key k rs
      → History key k (insert_row x (update_where (active key) (deactivate by) rs))
  History-swap k x [] e on v h = ground arith
  History-swap k x (r ∷ rs) e on v h = ground (
    arith,
    History-swap k x rs e on,
    History-swap (suc k) x rs e on,
    any-insert key x (update_where (active key) (deactivate by) rs) e,
  )

  -- It leaves the versions of every other key alone.
  History-swap_ne :
      (key' : String) (k : ℕ) (x : AppConfig) (rs : List AppConfig)
      → key ≢ key'
      → has_key key' x ≡ false
      → History key' k rs
      → History key' k (insert_row x (update_where (active key) (deactivate by) rs))
  History-swap_ne key' k x [] n e h = rw e tt
  History-swap_ne key' k x (r ∷ rs) n e h = ground (
    arith,
    str_eq_iff r.config_key key,
    str_eq_iff r.config_key key',
    History-swap_ne key' k x rs n e,
    History-swap_ne key' (suc k) x rs n e,
    any-swap_ne key' x rs e,
  )

  -- Nothing clashes with the next version: no row of the key is active, and all are older.
  clashes-next :
      (k v : ℕ) (rs : List AppConfig)
      → k + count key rs < v
      → History key k rs
      → clashes key (pos v) (update_where (active key) (deactivate by) rs) ≡ false
  clashes-next k v [] l h = refl
  clashes-next k v (r ∷ rs) l h = ground (arith, clashes-next k v rs, clashes-next (suc k) v rs)

-- The invariant of the configuration table.
pub record IsVersioned (t : ConfigTable) : Type 0 where
  pub at : (key : String) → History key 0 t.rows

str_eq-false : (a b : String) → a ≢ b → str_eq a b ≡ false
str_eq-false a b n = ground (arith, str_eq_iff a b)

-- While a key has had fewer versions than an `int32` counts, the next version is the next number.
next_version :
    (key : String) (t : ConfigTable)
    → IsVersioned t
    → count key t.rows < 2147483647
    → inc_int32 (prev_version key t.rows) ≡ pos (suc (count key t.rows))
next_version key t w l =
    ap inc_int32 (prev_version-count key t.rows (w.at key)) ∙ inc_int32-pos (count key t.rows) l

abbrev pub swapped : SwapConfigArgs → ConfigTable → ConfigTable
swapped a t = record t {
  rows =
      insert_row (new_config a t.next_id (pos (suc (count a.key t.rows))))
        (update_where (active a.key) (deactivate a.updated_by) t.rows);
  next_id = suc t.next_id;
}

swapped-IsVersioned :
    (a : SwapConfigArgs) (t : ConfigTable) → IsVersioned t → IsVersioned (swapped a t)
swapped-IsVersioned a t w =
    let new = new_config a t.next_id (pos (suc (count a.key t.rows))) in
    record {
      at = λ key'. elim (Bool-cases (str_eq a.key key')) [
        | inl e ↦ rw (← (str_eq_iff a.key key').0 e) (
            History-swap a.key a.updated_by 0 new t.rows (str_eq_refl a.key) refl (ground arith)
              (w.at a.key))
        | inr e ↦
            History-swap_ne a.key a.updated_by key' 0 new t.rows
              (λ q. cc ((str_eq_iff a.key key').1 q, e)) e (w.at key')
      ];
    }

no_clash :
    (a : SwapConfigArgs) (t : ConfigTable)
    → IsVersioned t
    → clashes a.key
        (pos (suc (count a.key t.rows)))
        (update_where (active a.key) (deactivate a.updated_by) t.rows)
      ≡ false
no_clash a t w =
    clashes-next a.key a.updated_by 0 (suc (count a.key t.rows)) t.rows (omega arith) (w.at a.key)

-- Without a concurrent writer the swap finds no conflict, and numbers the versions without a gap.
pub swap_body-eq-ok :
    (a : SwapConfigArgs) (t : ConfigTable)
    → IsVersioned t
    → count a.key t.rows < 2147483647
    → swap_body false false a t
      ≡ ok (new_config a t.next_id (pos (suc (count a.key t.rows))), swapped a t)
unfolding swap_body
swap_body-eq-ok a t w l = rw (next_version a.key t w l, no_clash a t w) refl

swap_body-IsVersioned :
    (rf nf : Bool) (a : SwapConfigArgs) (t t' : ConfigTable) (c : AppConfig)
    → IsVersioned t
    → count a.key t.rows < 2147483647
    → swap_body rf nf a t ≡ ok (c, t')
    → IsVersioned t'
unfolding swap_body
swap_body-IsVersioned true nf a t t' c w l h = cc
swap_body-IsVersioned false true a t t' c w l h = cc
swap_body-IsVersioned false false a t t' c w l h =
    let e : t' ≡ swapped a t = cc (rw (next_version a.key t w l, no_clash a t w) at h) in
    rw e (swapped-IsVersioned a t w)

-- A write of a key that has had fewer than 2147483647 versions, whatever it is given and whatever calls the
-- database fails, keeps the versions of every key numbered 1, 2, … without a gap, and only its newest
-- version active.
pub put_config-IsVersioned :
    (digest : String → Bytes) (fail : ℕ → Bool) (t : ConfigTable) (key : String)
    (in' : AppConfigUpdate) (actor : ℕ)
    → IsVersioned t
    → count key t.rows < 2147483647
    → IsVersioned (put_config digest fail t key in' actor).0
unfolding put_config
put_config-IsVersioned digest fail t key in' actor w l = elim (Bool-cases (str_eq key "")) [
  | inl e ↦ rw e w
  | inr e ↦ elim (Option-cases in'.value) [
    | inl n ↦ rw (e, n) w
    | inr (value, v) ↦
        rw (e, v)
          (with_tx-keeps db_fault IsVersioned t w (fail 0) (fail 3) _
            (λ c t' h. swap_body-IsVersioned (fail 1) (fail 2) _ t t' c w l h))
  ]
]
