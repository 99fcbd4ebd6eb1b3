-- ===== src/Api/DeepCopy.antt =====
-- The generated deep copies of the API types, api/v1beta1/zz_generated.deepcopy.go and
-- api/v1beta2/zz_generated.deepcopy.go.
pub mod Heap
pub mod Foreign
pub mod Layouts
pub mod Pointers
pub mod Slices
pub mod V1beta1
pub mod V1beta2
