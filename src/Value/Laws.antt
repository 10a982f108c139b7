-- ===== src/Value/Laws.antt =====
-- How the dictionary operations of Value.antt interact.
use fast_api_layers.Prelude.{String, ◌≡◌, refl, none, some, arith, ◌==◌, eq_iff, if◌then◌else◌}
use fast_api_layers.Value.{Value, Fields, end, field, get, set, without}

pub get-set :
    (k j : String) (v : Value) (d : Fields)
    → get j (set k v d) ≡ (if k == j then some v else get j d)
unfolding get set
get-set k j v end = refl
get-set k j v (field i w d) = ground (arith, eq_iff k j, eq_iff i k, eq_iff i j, get-set k j v d)

pub get-without :
    (k j : String) (d : Fields) → get j (without k d) ≡ (if k == j then none else get j d)
unfolding get without
get-without k j end = ground arith
get-without k j (field i w d) =
    ground (arith, eq_iff k j, eq_iff i k, eq_iff i j, get-without k j d)
