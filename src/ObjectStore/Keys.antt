-- ===== src/ObjectStore/Keys.antt =====
-- The keys of topics: the code's tests of a key tell when dataset and name are equal.
use text.Mathlib.Text.{◌==◌ as str_eq}
use text.Mathlib.TextEquality.{eq_iff}
use Prim.Native.String.{String}
use plotjuggler_core.Prelude.{ℕ, ◌≡◌, ◌≢◌, refl, true, false, arith}
use plotjuggler_core.ObjectSeries.{ObjectTopicDescriptor}
use plotjuggler_core.ObjectStore.{same_key}

-- The topic of `d` has another dataset or another name.
abbrev pub OtherKey : ℕ → String → ObjectTopicDescriptor → Type 0
OtherKey dataset_id name d = d.dataset_id ≡ dataset_id → d.topic_name ≢ name

pub str_eq_ne : (s t : String) → str_eq s t ≡ false → s ≢ t
str_eq_ne s t h e = let yes = (eq_iff s t).1 e in cc

pub same_key_self : (d : ObjectTopicDescriptor) → same_key d.dataset_id d.topic_name d ≡ true
unfolding same_key
same_key_self d = let yes = (eq_iff d.topic_name d.topic_name).1 refl in ground arith

pub same_key-OtherKey :
    (dataset_id : ℕ) (name : String) (d : ObjectTopicDescriptor)
    → same_key dataset_id name d ≡ false
    → OtherKey dataset_id name d
unfolding same_key
same_key-OtherKey dataset_id name d h e n = let yes = (eq_iff d.topic_name name).1 n in ground arith

pub same_key-false :
    (dataset_id : ℕ) (name : String) (d : ObjectTopicDescriptor)
    → OtherKey dataset_id name d
    → same_key dataset_id name d ≡ false
unfolding same_key
same_key-false dataset_id name d h = ground (arith, eq_iff d.topic_name name)
