-- ===== src/Memory/Tdb/Layers.antt =====
-- internal/memory/tdb/provider.go: the types of records and the layers of cells.
use hydra_db.Base.{
  ℕ, String, ◌≡◌, refl, ap, ◌∙◌, Bool, ◌||◌, ◌&&◌, if◌then◌else◌, str_eq, eq_iff, arith, ℤ, pos,
  negsuc, zero, suc, leb_ℤ,
}
use hydra_db.Memory.Types.{episodic, semantic, operational, working}
use hydra_db.Memory.Tdb.{layer_from_type, type_from_layer}

abbrev pub is_named : String → Bool
is_named t = str_eq t episodic || str_eq t semantic || str_eq t operational || str_eq t working

high_layer : (n : ℕ) → type_from_layer (pos (suc (suc (suc (suc n))))) ≡ semantic
unfolding type_from_layer
high_layer n = ground arith

low_layer : (n : ℕ) → type_from_layer (negsuc n) ≡ semantic
unfolding type_from_layer
low_layer n = ground arith

out_of_range :
    (n : ℕ)
    → let layer = pos (suc (suc (suc (suc n)))) in
      pos 1 ≡ (if leb_ℤ (pos 0) layer && leb_ℤ layer (pos 3) then layer else pos 1)
out_of_range n = ground arith

below_range :
    (n : ℕ)
    → pos 1 ≡ (if leb_ℤ (pos 0) (negsuc n) && leb_ℤ (negsuc n) (pos 3) then negsuc n else pos 1)
below_range n = ground arith

layer_back :
    (layer : ℤ)
    → layer_from_type (type_from_layer layer)
      ≡ (if leb_ℤ (pos 0) layer && leb_ℤ layer (pos 3) then layer else pos 1)
unfolding layer_from_type type_from_layer
layer_back (pos zero) = refl
layer_back (pos (suc zero)) = refl
layer_back (pos (suc (suc zero))) = refl
layer_back (pos (suc (suc (suc zero)))) = refl
layer_back (pos (suc (suc (suc (suc n))))) = ap layer_from_type (high_layer n) ∙ out_of_range n
layer_back (negsuc n) = ap layer_from_type (low_layer n) ∙ below_range n

type_back :
    (t : String) → type_from_layer (layer_from_type t) ≡ (if is_named t then t else episodic)
unfolding layer_from_type type_from_layer
type_back t =
    ground (arith, eq_iff t episodic, eq_iff t semantic, eq_iff t operational, eq_iff t working)

-- A named type comes back from its layer, and a layer from 0 to 3 from its type. Any other type comes
-- back as episodic, and any other layer as that of semantic.
pub layers_lem :
    (t : String) (layer : ℤ)
    → (type_from_layer (layer_from_type t) ≡ (if is_named t then t else episodic))
      × (layer_from_type (type_from_layer layer)
          ≡ (if leb_ℤ (pos 0) layer && leb_ℤ layer (pos 3) then layer else pos 1))
layers_lem t layer = (type_back t, layer_back layer)
