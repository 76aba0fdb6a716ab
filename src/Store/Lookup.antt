-- ===== src/Store/Lookup.antt =====
-- Lookups in the ordered map of a space, after a write and after a removal.
use voxel.Base.{◌≡◌, refl, sym, ◌∙◌, subst, ◌≢◌, none, some, [], ◌∷◌}
use voxel.Store.{Bytes, Space, assign, lookup, remove}
use voxel.Store.Sorted.{
  Above, Ascends, Above-weaken, Ascends-Above, bytes_less_asym, bytes_less_irrefl, bytes_less_trans,
  before, after, same, order,
}

lookup_below : (key : Bytes) (m : Space) → Above key m → lookup m key ≡ none
unfolding lookup
lookup_below key [] a = refl
lookup_below key ((k, v) ∷ m) a = rw (bytes_less_asym key k a.0, a.0) refl

pub lookup-assign_self :
    (m : Space) (key value : Bytes) → lookup (assign m key value) key ≡ some value
unfolding lookup assign
lookup-assign_self [] key value = rw (bytes_less_irrefl key) refl
lookup-assign_self ((k, v) ∷ m) key value = elim (order k key) [
  | before y n ↦ rw (y, y) (lookup-assign_self m key value)
  | after n y ↦ rw (n, y, bytes_less_irrefl key) refl
  | same e n n' ↦ rw (n, n', n, n') refl
]

pub lookup-assign_ne :
    (m : Space) (key value j : Bytes) → key ≢ j → lookup (assign m key value) j ≡ lookup m j
unfolding lookup assign
lookup-assign_ne [] key value j ne = elim (order key j) [
  | before y n ↦ rw y refl
  | after n y ↦ rw (n, y) refl
  | same e n n' ↦ absurd (ne e)
]
lookup-assign_ne ((k, v) ∷ m) key value j ne = elim (order k key) [
  | before y n ↦ elim (order k j) [
    | before t u ↦ rw (y, t) (lookup-assign_ne m key value j ne)
    | after u t ↦ rw (y, u, t) refl
    | same e u u' ↦ rw (y, u, u') refl
  ]
  | after n y ↦ elim (order key j) [
    | before t u ↦ rw (n, y, t) refl
    | after u t ↦
        rw (n, y, u, t)
          (rw (bytes_less_asym j k (bytes_less_trans j key k t y), bytes_less_trans j key k t y)
            refl)
    | same e u u' ↦ absurd (ne e)
  ]
  | same e n n' ↦ elim (order k j) [
    | before t u ↦ rw (n, n', t) refl
    | after u t ↦ rw (n, n', u, t) refl
    | same q u u' ↦ absurd (ne (sym e ∙ q))
  ]
]

pub lookup-remove_self : (m : Space) (key : Bytes) → Ascends m → lookup (remove m key) key ≡ none
unfolding lookup remove
lookup-remove_self [] key a = refl
lookup-remove_self ((k, v) ∷ m) key a = elim (order k key) [
  | before y n ↦ rw (y, y) (lookup-remove_self m key (Ascends-Above k m a))
  | after n y ↦ rw (n, y, n, y) refl
  | same e n n' ↦ rw (n, n') (lookup_below key m (subst (λ t. Above t m) e a))
]

pub lookup-remove_ne :
    (m : Space) (key j : Bytes) → Ascends m → key ≢ j → lookup (remove m key) j ≡ lookup m j
unfolding lookup remove
lookup-remove_ne [] key j a ne = refl
lookup-remove_ne ((k, v) ∷ m) key j a ne = elim (order k key) [
  | before y n ↦ elim (order k j) [
    | before t u ↦ rw (y, t) (lookup-remove_ne m key j (Ascends-Above k m a) ne)
    | after u t ↦ rw (y, u, t) refl
    | same e u u' ↦ rw (y, u, u') refl
  ]
  | after n y ↦ rw (n, y) refl
  | same e n n' ↦ elim (order k j) [
    | before t u ↦ rw (n, n', t) refl
    | after u t ↦ rw (n, n', u, t) (lookup_below j m (Above-weaken j k m t a))
    | same q u u' ↦ absurd (ne (sym e ∙ q))
  ]
]
