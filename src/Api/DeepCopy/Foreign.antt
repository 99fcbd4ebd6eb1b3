-- ===== src/Api/DeepCopy/Foreign.antt =====
-- The metadata of Kubernetes, with deep copies of its own.
use resourcelimiter.Api.DeepCopy.Heap.{Layout, Copier, IsDeep}

-- `metav1.ObjectMeta`, `metav1.ListMeta`, and the cells that they refer to.
pub record Foreign : Type 1 where
  pub ObjectMeta : Type 0
  pub ListMeta : Type 0
  pub Cell : Type 0
  pub zero_object_meta : ObjectMeta
  pub zero_list_meta : ListMeta

module _ (F : Foreign) (Cell : Type 0) where
  -- Their methods `DeepCopyInto`.
  pub record MetaCopies : Type 0 where
    pub copy_object_meta : Copier Cell F.ObjectMeta
    pub copy_list_meta : Copier Cell F.ListMeta

  -- Documented behaviour: they are deep.
  pub record IsMetaDeep (M : MetaCopies) : Type 1 where
    pub object_layout : Layout Cell F.ObjectMeta
    pub list_layout : Layout Cell F.ListMeta
    pub object_meta-IsDeep : IsDeep object_layout M.copy_object_meta
    pub list_meta-IsDeep : IsDeep list_layout M.copy_list_meta
