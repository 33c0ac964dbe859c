-- ===== src/Base/Maps.antt =====
-- Maps over lists.
use mathlib.Core.List.{Mem, mem-cons_self, mem-cons_of_mem}
use zoneroute.Base.{List, [], ◌∷◌, map, ◌≡◌, refl, ap}

pub map-id {ℓ} : {A : Type ℓ} (f : A → A) (l : List A) → ((x : A) → f x ≡ x) → map f l ≡ l
map-id f [] h = refl
map-id f (x ∷ l) h = λ i. h x i ∷ map-id f l h i

pub map-map {ℓ} : {A : Type ℓ} (f g : A → A) (l : List A) → map f (map g l) ≡ map (λ x. f (g x)) l
map-map f g [] = refl
map-map f g (x ∷ l) = ap (◌∷◌ (f (g x))) (map-map f g l)

-- Functions that agree on the items of a list.
pub map-mem {ℓ} :
    {A : Type ℓ} (f g : A → A) (l : List A) → ((x : A) → Mem x l → f x ≡ g x) → map f l ≡ map g l
map-mem f g [] h = refl
map-mem f g (x ∷ l) h =
    λ i. h x mem-cons_self i ∷ map-mem f g l (λ y m. h y (mem-cons_of_mem x m)) i
