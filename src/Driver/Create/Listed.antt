-- ===== src/Driver/Create/Listed.antt =====
-- The lists of sensors that `altra_create_sensor` of module/altra-hwmon.c leaves.
use mathlib.Core.List.{append-nil, append_assoc}
use wfey.Prelude.{
  ℕ, zero, suc, ◌+◌, ◌<◌, ◌≡◌, refl, sym, ◌∙◌, ap, false, ◌&&◌, none, some, some_eq, List, [], ◌∷◌,
  ◌++◌, ltb, ◌==◌, if◌then◌else◌, update, arith, Bool-cases, Option-cases, inl, inr,
}
use wfey.Driver.{Types, Registers, SensorItem, Context, altra_sensor_is_valid, data_at}
use wfey.Driver.Create.{Metric, Placing, within, new_item, placed, put, advance, place}

-- The first sensors of a list.
abbrev pub first_items : (ℕ → SensorItem) → ℕ → List SensorItem
first_items list zero = []
first_items list (suc n) = first_items list n ++ list n ∷ []

abbrev pub sensors_of : Context → ℕ → List SensorItem
sensors_of ctx type = first_items (ctx.sensor_list type) (ctx.sensor_list_cnt type)

-- The sensors that a pass finds valid from the `i`-th on, behind `j` others of the metric.
unfoldable pub items_found : Registers → Metric → ℕ → ℕ → ℕ → List SensorItem
items_found r k i zero j = []
items_found r k i (suc n) j =
    let with_it = items_found r k (i + 1) n (j + 1) in
    let without = items_found r k (i + 1) n j in
    if altra_sensor_is_valid r (data_at k.start k.data_size i) k.data_size
    then new_item k i j ∷ with_it
    else without

update_other {ℓ} :
    {A : Type ℓ} (f : ℕ → A) (m n : ℕ) (x : A) → (n == m) ≡ false → update f m x n ≡ f n
update_other f m n x h = grind arith

update_self {ℓ} : {A : Type ℓ} (f : ℕ → A) (m : ℕ) (x : A) → update f m x m ≡ x
update_self f m x = grind arith

first_items-update :
    (list : ℕ → SensorItem) (m n : ℕ) (item : SensorItem)
    → n < m + 1
    → first_items (update list m item) n ≡ first_items list n
first_items-update list m zero item h = refl
first_items-update list m (suc n) item h =
    let before = first_items-update list m n item (omega arith) in
    let other = update_other list m n item (ground arith) in cc

first_items-more :
    (list : ℕ → SensorItem) (n : ℕ) (item : SensorItem)
    → first_items (update list n item) (n + 1) ≡ first_items list n ++ item ∷ []
first_items-more list n item =
    let next : n + 1 ≡ suc n = omega arith in
    let before = first_items-update list n n item (omega arith) in
    let self = update_self list n item in ap (first_items (update list n item)) next ∙ cc

-- What is added to the list of a type.
abbrev pub added : ℕ → ℕ → List SensorItem → List SensorItem
added type other items = if other == type then items else []

placed-listed :
    (t : Types) (k : Metric) (i : ℕ) (s : Placing) (other : ℕ)
    → sensors_of (placed t k i s).ctx other
      ≡ sensors_of s.ctx other ++ added k.type other (new_item k i s.j ∷ [])
placed-listed t k i s other = elim (Bool-cases (other == k.type)) [
  | inl here ↦
      let same : other ≡ k.type = ground arith in
      let one =
        first_items-more (s.ctx.sensor_list k.type) (s.ctx.sensor_list_cnt k.type)
          (new_item k i s.j) in
      let list =
        update_self s.ctx.sensor_list k.type
          (update (s.ctx.sensor_list k.type) (s.ctx.sensor_list_cnt k.type) (new_item k i s.j)) in
      let cnt = update_self s.ctx.sensor_list_cnt k.type (s.ctx.sensor_list_cnt k.type + 1) in
      rw here (rw same (rw (list, cnt) one))
  | inr there ↦
      let list =
        update_other s.ctx.sensor_list k.type other
          (update (s.ctx.sensor_list k.type) (s.ctx.sensor_list_cnt k.type) (new_item k i s.j))
          there in
      let cnt =
        update_other s.ctx.sensor_list_cnt k.type other (s.ctx.sensor_list_cnt k.type + 1) there in
      rw (there, list, cnt) (sym (append-nil (sensors_of s.ctx other)))
]

added-nil : (type other : ℕ) → added type other [] ≡ []
added-nil type other = ground arith

added-append :
    (type other : ℕ) (item : SensorItem) (items : List SensorItem)
    → added type other (item ∷ []) ++ added type other items ≡ added type other (item ∷ items)
added-append type other item items = ground arith

none-ne-some {ℓ κ} : {A : Type ℓ} {B : Type κ} {x : A} → none ≡ some x → B
none-ne-some h = absurd (ground arith)

put-some :
    (t : Types) (k : Metric) (i : ℕ) (s s' : Placing) → put t k i s ≡ some s' → placed t k i s ≡ s'
unfolding put
put-some t k i s s' e =
    elim (Bool-cases
      (within (s.ctx.sensor_list_cnt k.type) (s.ctx.room k.type) && ltb s.j k.total)) [
        | inl room ↦ some_eq (rw room at e)
        | inr full ↦ none-ne-some (rw full at e)
      ]

-- The second pass adds what it finds to the list of its type, and leaves the other lists.
pub place-listed :
    (t : Types) (r : Registers) (k : Metric) (i n : ℕ) (s s' : Placing)
    → place t r k i n s ≡ some s'
    → (other : ℕ)
    → sensors_of s'.ctx other
      ≡ sensors_of s.ctx other ++ added k.type other (items_found r k i n s.j)
unfolding place advance items_found
place-listed t r k i zero s s' e other =
    rw (← some_eq e) (rw (added-nil k.type other) (sym (append-nil (sensors_of s.ctx other))))
place-listed t r k i (suc n) s s' e other =
    elim (Bool-cases (altra_sensor_is_valid r (data_at k.start k.data_size i) k.data_size)) [
      | inl valid ↦ elim (Option-cases (put t k i s)) [
        | inl full ↦ none-ne-some (rw (valid, full) at e)
        | inr (s1, one) ↦
            let rest = place-listed t r k (i + 1) n s1 s' (rw (valid, one) at e) other in
            let now = put-some t k i s s1 one in
            let rest' : sensors_of s'.ctx other
                ≡ sensors_of (placed t k i s).ctx other
                  ++ added k.type other (items_found r k (i + 1) n (s.j + 1)) =
              rw (← now) at rest in
            rw valid (rest' ∙ rw (placed-listed t k i s other, append_assoc, added-append) refl)
      ]
      | inr invalid ↦ rw invalid (place-listed t r k (i + 1) n s s' (rw invalid at e) other)
    ]
