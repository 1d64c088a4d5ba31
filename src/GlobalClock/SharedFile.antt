-- ===== src/GlobalClock/SharedFile.antt =====
-- The file of a clock has no number of a server in its name.
use hcl.Base.{
  ℕ, ◌+◌, ◌≡◌, ◌≢◌, ◌<◌, refl, ◌∙◌, true, false, List, [], ◌∷◌, ◌++◌, Option, some, length,
  length-append, ◌>>=◌, arith,
}
use hcl.CharStruct.{CharStruct}
use hcl.CharStruct.Text.{no_nul, plus-some, plus_string-some}
use hcl.RpcLib.{Rpc}
use hcl.HclInternal.{Process, get_rpc}
use hcl.Container.Files.{Mapped, underscore, find_file, map_segment}
use hcl.Strings.{lacks, to_string}
use hcl.Strings.Find.{lacks-append, same_text_iff}
use hcl.Container.Files.Segments.{replaced, map_segment-replaced, reopened_self}
use hcl.GlobalClock.{GlobalClock, clock_file, new_global_clock}

pub clock_file-some :
    (dir name : List ℕ)
    → (no_nul dir ≡ true) × (no_nul name ≡ true)
    → length dir + length name + 1 < 256
    → clock_file (record { value = dir }) name
      ≡ some (record { value = (dir ++ b'/' ∷ []) ++ name })
unfolding clock_file lacks
clock_file-some dir name (clean, clean') lt =
    let slash : List ℕ = b'/' ∷ [] in
    let len = length-append dir slash in
    rw
      (
        (plus-some dir clean slash refl (omega arith)).0,
        plus_string-some (dir ++ slash) (lacks-append 0 dir slash clean refl) name clean'
            (omega arith),
      )
      refl

module _ {E : Type 0} (name : List ℕ) (port : ℕ) (file : CharStruct) where
  -- a process that makes its clock in the file, on a port that it has an RPC object for
  pub record Makes (process : Process E) : Type 0 where
    pub folder : clock_file process.conf.backed_file_dir name ≡ some file
    pub rpc : Rpc E
    pub ready : get_rpc port process ≡ some rpc

  abbrev made : Process E → Option ℕ → GlobalClock
  made process segment = record {
    is_server = process.conf.is_server;
    memory_allocated = 134217728;
    num_servers = process.conf.num_servers;
    my_server = process.conf.my_server;
    segment = segment;
    name = name ++ (underscore ++ to_string process.conf.my_server);
    func_prefix = name;
    port = port;
    server_on_node = process.conf.server_on_node;
    backed_file = file;
  }

  new_global_clock-made :
      (process : Process E) (m : Mapped)
      → Makes process
      → new_global_clock process name port m ≡ (
          map_segment process.conf.is_server process.conf.server_on_node file.value m
          >>= λ (segment, m'). some (made process segment, m'))
  unfolding new_global_clock
  new_global_clock-made process m h = rw (h.folder, h.ready) refl

  -- Two servers on one node, whatever their numbers, and a client on that node make their clocks in this
  -- order, with one name and one directory whose path is short enough, and with RPC objects for their ports:
  -- all three constructors return; the second server makes the file anew, in place of that of the first
  -- one, and the client maps the file of the second one, also if its own server is the first one.
  pub new_global_clock-segment :
      (process process' process'' : Process E) (m : Mapped)
      → Makes process × (process.conf.is_server ≡ true)
      → Makes process' × (process'.conf.is_server ≡ true)
      → Makes process''
        × (process''.conf.is_server ≡ false)
        × (process''.conf.server_on_node ≡ true)
      → (g g' g'' : GlobalClock) × (m' m'' : Mapped) × (new_global_clock process name port m
          ≡ some (g, m'))
        × (new_global_clock process' name port m' ≡ some (g', m''))
        × (new_global_clock process'' name port m'' ≡ some (g'', m''))
        × (g''.segment ≡ g'.segment)
        × (g'.segment ≢ g.segment)
        × (find_file file.value m''.files ≡ g'.segment)
  unfolding find_file
  new_global_clock-segment process process' process'' m (h, is_server) (h', is_server')
        (h'', is_client, on_node) =
      let path = file.value in
      let m' = replaced path m in
      let m'' = replaced path m' in
      (
        made process (some m.next_file),
        made process' (some (m.next_file + 1)),
        made process'' (some (m.next_file + 1)),
        m',
        m'',
        new_global_clock-made process m h
            ∙ rw (is_server, map_segment-replaced process.conf.server_on_node path m) refl,
        new_global_clock-made process' m' h'
            ∙ rw (is_server', map_segment-replaced process'.conf.server_on_node path m') refl,
        new_global_clock-made process'' m'' h''
            ∙ rw (is_client, on_node, reopened_self path m') refl,
        refl,
        λ e. ground arith,
        rw ((same_text_iff path path).1 refl) refl,
      )
