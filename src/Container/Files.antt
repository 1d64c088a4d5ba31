-- ===== src/Container/Files.antt =====
-- The constructor, the destructor and the lock of the class container, src/hcl/common/container.cpp, which
-- give each server of each container its own file of shared memory. boost::interprocess stands for itself:
-- a file is made empty and gets the next number, is opened by its path, and holds what is constructed in
-- it. Paths proves that two servers never share a file.
pub mod Paths
pub mod Segments
use hcl.Base.{
  ℕ, ◌+◌, Bool, true, false, ◌||◌, List, [], ◌∷◌, ◌++◌, Option, some, none, if◌then◌else◌, ◌>>=◌,
}
use hcl.CharStruct.{CharStruct, of_string, plus, plus_assign, copy_of}
use hcl.Strings.{to_string, same_text}
use hcl.HclInternal.{Process, get_rpc}

-- the files of shared memory on a node, each with the number that it got when it was made
pub record Mapped : Type 0 where
  pub files : List (List ℕ × ℕ)
  pub next_file : ℕ

unfoldable pub find_file : List ℕ → List (List ℕ × ℕ) → Option ℕ
find_file path [] = none
find_file path ((p, n) ∷ files) =
    let rest = find_file path files in if same_text p path then some n else rest

-- file_mapping::remove, which leaves a path alone that no file has
unfoldable pub remove_file : List ℕ → List (List ℕ × ℕ) → List (List ℕ × ℕ)
remove_file path [] = []
remove_file path ((p, n) ∷ files) =
    let rest = remove_file path files in if same_text p path then rest else (p, n) ∷ rest

-- managed_mapped_file(create_only, path); none: the file is there, and the constructor throws
unfoldable pub create_file : List ℕ → Mapped → Option (ℕ × Mapped)
unfolding find_file
create_file path m = elim (find_file path m.files) [
  | some n ↦ none
  | none ↦
      some
        (m.next_file, record { files = (path, m.next_file) ∷ m.files; next_file = m.next_file + 1 })
]

-- the arguments of the constructor
pub record Arguments : Type 0 where
  pub name : CharStruct
  pub port : ℕ
  pub num_servers : ℕ
  pub my_server_idx : ℕ
  pub memory_allocated : ℕ
  pub is_server : Bool
  pub is_server_on_node : Bool
  pub backed_file_dir : CharStruct

-- the object; `segment` is the file that it has mapped, in which its mutex stands
pub record Opened : Type 0 where
  pub num_servers : ℕ
  pub my_server_idx : ℕ
  pub memory_allocated : ℕ
  pub is_server : Bool
  pub segment : Option ℕ
  pub name : CharStruct
  pub func_prefix : CharStruct
  pub backed_file : CharStruct
  pub port : ℕ
  pub server_on_node : Bool

abbrev pub underscore : List ℕ
underscore = b'_' ∷ []

-- `_backed_file_dir + PATH_SEPARATOR + _name + "_" + std::to_string(_my_server_idx)`
pub backed_file_of : CharStruct → CharStruct → ℕ → Option CharStruct
backed_file_of _backed_file_dir _name _my_server_idx = do
  folder ← plus _backed_file_dir (record { value = b'/' ∷ [] })
  prefix ← plus folder _name
  path ← plus prefix (record { value = underscore })
  number ← of_string (to_string _my_server_idx)
  plus path number

-- `name += "_" + std::to_string(my_server_idx)`
pub name_of : CharStruct → ℕ → Option CharStruct
name_of _name my_server_idx = do
  suffix ← of_string (underscore ++ to_string my_server_idx)
  plus_assign _name suffix

-- the branches of the constructor
unfoldable pub map_segment : Bool → Bool → List ℕ → Mapped → Option (Option ℕ × Mapped)
unfolding remove_file create_file find_file
map_segment true server_on_node path m = do
  (n, m') ← create_file path (record m { files = remove_file path m.files })
  some (some n, m')
map_segment false true path m = find_file path m.files >>= λ n. some (some n, m)
map_segment false false path m = some (none, m)

-- the constructor of container; none: an exception, or a text that is too long
pub new_container : {E : Type 0} → Process E → Arguments → Mapped → Option (Opened × Mapped)
unfolding map_segment
new_container process a m = do
  func_prefix ← copy_of a.name
  backed_file ← backed_file_of a.backed_file_dir a.name a.my_server_idx
  name ← name_of a.name a.my_server_idx
  rpc ← get_rpc a.port process
  (segment, m') ← map_segment a.is_server a.is_server_on_node backed_file.value m
  some (
    record {
      num_servers = a.num_servers;
      my_server_idx = a.my_server_idx;
      memory_allocated = a.memory_allocated;
      is_server = a.is_server;
      segment = segment;
      name = name;
      func_prefix = func_prefix;
      backed_file = backed_file;
      port = a.port;
      server_on_node = a.is_server_on_node;
    },
    m',
  )

-- the destructor
pub drop_container : Opened → Mapped → Mapped
unfolding remove_file
drop_container o m =
    if o.is_server then record m { files = remove_file o.backed_file.value m.files } else m

-- lock() and unlock() tell which mutex they lock or unlock, if they do; none: a pointer to no mutex
pub lock : Opened → Option (Option ℕ)
lock o = if o.server_on_node || o.is_server then (o.segment >>= λ n. some (some n)) else some none

pub unlock : Opened → Option (Option ℕ)
unlock o = if o.server_on_node || o.is_server then (o.segment >>= λ n. some (some n)) else some none
