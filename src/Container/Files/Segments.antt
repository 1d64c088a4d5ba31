-- ===== src/Container/Files/Segments.antt =====
-- Which file of shared memory a process gets.
use hcl.Base.{
  ℕ, ◌+◌, ◌≡◌, ◌≢◌, ◌<◌, ◌⊎◌, inl, inr, refl, ◌∙◌, ap, Bool, true, false, List, [], ◌∷◌, Option,
  some, none, ◌>>=◌, arith,
}
use hcl.CharStruct.Text.{copy_of-some}
use hcl.Strings.{same_text}
use hcl.Strings.Find.{same_text_iff}
use hcl.RpcLib.{Rpc}
use hcl.HclInternal.{Process, get_rpc}
use hcl.Container.Files.{
  Mapped, Arguments, Opened, find_file, remove_file, create_file, map_segment, new_container,
}
use hcl.Container.Files.Paths.{
  Fits, numbered, path_text, backed_file_of-path_text, name_of-numbered, path_text-injective,
}

find_file-remove_self :
    (p : List ℕ) (files : List (List ℕ × ℕ)) → find_file p (remove_file p files) ≡ none
unfolding find_file remove_file
find_file-remove_self p [] = refl
find_file-remove_self p ((q, n) ∷ files) = ground (arith, find_file-remove_self p files)

same_text_refl : (p : List ℕ) → same_text p p ≡ true
same_text_refl p = (same_text_iff p p).1 refl

find_file-remove_ne :
    (p q : List ℕ) (files : List (List ℕ × ℕ))
    → p ≢ q
    → find_file p (remove_file q files) ≡ find_file p files
unfolding find_file remove_file
find_file-remove_ne p q [] ne = refl
find_file-remove_ne p q ((t, n) ∷ files) ne =
    ground (arith, find_file-remove_ne p q files ne, same_text_iff t p, same_text_iff t q)

same_text_ne : (p q : List ℕ) → p ≢ q → same_text q p ≡ false
same_text_ne p q ne = ground (arith, same_text_iff q p)

-- what a server's file is replaced by
abbrev pub replaced : List ℕ → Mapped → Mapped
replaced path m = record {
  files = (path, m.next_file) ∷ remove_file path m.files;
  next_file = m.next_file + 1;
}

pub map_segment-replaced :
    (server_on_node : Bool) (path : List ℕ) (m : Mapped)
    → map_segment true server_on_node path m ≡ some (some m.next_file, replaced path m)
unfolding map_segment create_file
map_segment-replaced server_on_node path m =
    rw (find_file-remove_self path m.files, create_file) refl

-- a file that has just been made is opened
pub reopened_self :
    (path : List ℕ) (m : Mapped)
    → map_segment false true path (replaced path m) ≡ some (some m.next_file, replaced path m)
unfolding map_segment find_file
reopened_self path m = rw (same_text_refl path) refl

-- the arguments of one process for server `idx` of a container
pub record IsFor {E : Type 0} (dir name : List ℕ) (idx : ℕ) (process : Process E) (a : Arguments)
    : Type 0 where
  pub named : a.name.value ≡ name
  pub folder : a.backed_file_dir.value ≡ dir
  pub index : a.my_server_idx ≡ idx
  pub rpc : Rpc E
  pub ready : get_rpc a.port process ≡ some rpc

abbrev opened : List ℕ → List ℕ → ℕ → Arguments → Option ℕ → Opened
opened dir name idx a segment = record {
  num_servers = a.num_servers;
  my_server_idx = a.my_server_idx;
  memory_allocated = a.memory_allocated;
  is_server = a.is_server;
  segment = segment;
  name = record { value = numbered name idx };
  func_prefix = record { value = name };
  backed_file = record { value = path_text dir name idx };
  port = a.port;
  server_on_node = a.is_server_on_node;
}

new_container-opened :
    {E : Type 0} {dir name : List ℕ} {idx : ℕ} (process : Process E) (a : Arguments) (m : Mapped)
    → IsFor dir name idx process a
    → Fits dir name idx
    → new_container process a m ≡ (
        map_segment a.is_server a.is_server_on_node (path_text dir name idx) m >>= λ (segment, m').
        some (opened dir name idx a segment, m'))
unfolding new_container
new_container-opened {dir = dir} {name = name} {idx = idx} process a m h fits =
    let named : a.name ≡ record { value = name } =
      ap (λ (v : List ℕ). record { value = v }) h.named in
    let folder : a.backed_file_dir ≡ record { value = dir } =
      ap (λ (v : List ℕ). record { value = v }) h.folder in
    rw
      (
        named,
        folder,
        h.index,
        copy_of-some name (omega (arith, fits.room)),
        backed_file_of-path_text fits,
        name_of-numbered fits,
        h.ready,
      )
      refl

path_text-ne :
    (dir name name' : List ℕ) (i j : ℕ)
    → i < 65536
    → j < 65536
    → (name ≢ name') ⊎ (i ≢ j)
    → path_text dir name i ≢ path_text dir name' j
path_text-ne dir name name' i j lt lt' (inl ne) e =
    ne (path_text-injective dir name name' i j lt lt' e).0
path_text-ne dir name name' i j lt lt' (inr ne) e =
    ne (path_text-injective dir name name' i j lt lt' e).1

-- a server's file is still there when another server has made its own
reopened :
    (path path' : List ℕ) (m : Mapped)
    → path ≢ path'
    → map_segment false true path (replaced path' (replaced path m))
      ≡ some (some m.next_file, replaced path' (replaced path m))
unfolding map_segment find_file
reopened path path' m differ =
    rw
      (
        same_text_ne path path' differ,
        find_file-remove_ne path path' (replaced path m).files differ,
        same_text_refl path,
      )
      refl

-- A server, another server with another number or of a container with another name, and a client on the
-- node of the first make their container objects in this order, in one directory whose paths are short
-- enough, with RPC objects for their ports: all three constructors return; the client maps the file that
-- the first server has made, and the second server's is another one.
pub new_container-segment :
    {E : Type 0} {dir name name' : List ℕ} {idx idx' : ℕ} (process process' process'' : Process E)
    (server other client : Arguments) (m : Mapped)
    → IsFor dir name idx process server × (server.is_server ≡ true)
    → IsFor dir name' idx' process' other × (other.is_server ≡ true)
    → IsFor dir name idx process'' client
      × (client.is_server ≡ false)
      × (client.is_server_on_node ≡ true)
    → Fits dir name idx × Fits dir name' idx'
    → (name ≢ name') ⊎ (idx ≢ idx')
    → (o o' o'' : Opened) × (m' m'' : Mapped) × (new_container process server m ≡ some (o, m'))
      × (new_container process' other m' ≡ some (o', m''))
      × (new_container process'' client m'' ≡ some (o'', m''))
      × (o''.segment ≡ o.segment)
      × (o'.segment ≢ o.segment)
new_container-segment {dir = dir} {name = name} {name' = name'} {idx = idx} {idx' = idx'} process
      process' process'' server other client m (mine, server_is) (theirs, other_is)
      (near, client_is, on_node) (fits, fits') apart =
    let path = path_text dir name idx in
    let path' = path_text dir name' idx' in
    let m' = replaced path m in
    let m'' = replaced path' m' in
    let differ = path_text-ne dir name name' idx idx' fits.small fits'.small apart in
    (
      opened dir name idx server (some m.next_file),
      opened dir name' idx' other (some (m.next_file + 1)),
      opened dir name idx client (some m.next_file),
      m',
      m'',
      new_container-opened process server m mine fits
          ∙ rw (server_is, map_segment-replaced server.is_server_on_node path m) refl,
      new_container-opened process' other m' theirs fits'
          ∙ rw (other_is, map_segment-replaced other.is_server_on_node path' m') refl,
      new_container-opened process'' client m'' near fits
          ∙ rw (client_is, on_node, reopened path path' m differ) refl,
      refl,
      λ e. ground arith,
    )
