-- ===== src/ConfigurationManager/Hosts.antt =====
-- What the lines of a server list stand for.
use hcl.Base.{
  ℕ, zero, suc, ◌+◌, ◌^◌, ◌≡◌, ◌<◌, refl, ap, ◌∙◌, true, List, [], ◌∷◌, ◌++◌, append_assoc,
  append-nil, some, length, length-append, u32, ◌>>=◌, arith,
}
use hcl.CharStruct.{CharStruct, string}
use hcl.CharStruct.Text.{no_nul, c_str-no_nul, of_string-some}
use hcl.Strings.{pos, lacks, to_string, is_digit, get_lines}
use hcl.Strings.Find.{find-append, find-lacks, lacks-append, substr-front, substr-after}
use hcl.Strings.Numbers.{atoi-to_string, lacks-to_string, lacks_nul-to_string}
use hcl.Strings.Lines.{get_lines-append}
use hcl.ConfigurationManager.{
  ConfigurationManager, Files, read_line, rounds, emplace_servers, load_lines, read_servers,
  load_servers,
}

-- a line of a server list: an empty one, a node alone, or a node and how many servers run on it
pub data Entry : Type 0 where
  blank : Entry
  once : ℕ → List ℕ → Entry
  several : List ℕ → ℕ → Entry

unfoldable pub node : Entry → List ℕ
node blank = []
node (once c s) = c ∷ s
node (several n k) = n

unfoldable pub count : Entry → ℕ
count blank = 0
count (once c s) = 1
count (several n k) = k

line_text : Entry → List ℕ
line_text blank = []
line_text (once c s) = c ∷ s
line_text (several n k) = n ++ (b':' ∷ to_string k)

-- a server list, line by line
pub print_list : List Entry → List ℕ
print_list [] = []
print_list (e ∷ es) = line_text e ++ b'\n' ∷ print_list es

-- a name of a node that a line can hold, and a count that is an int
pub record IsEntry (e : Entry) : Type 0 where
  pub no_colon : lacks b':' (node e) ≡ true
  pub one_line : lacks b'\n' (node e) ≡ true
  pub clean : no_nul (node e) ≡ true
  pub short : length (node e) < 256
  pub small : count e < 2 ^ 31

abbrev pub AllEntries : List Entry → Type 0
AllEntries [] = Unit {0}
AllEntries (e ∷ es) = IsEntry e × AllEntries es

abbrev pub copies : ℕ → List ℕ → List CharStruct
copies zero node = []
copies (suc n) node = record { value = node } ∷ copies n node

-- each node as often as its count says, in the order of the list
unfoldable pub expand : List Entry → List CharStruct
expand [] = []
expand (e ∷ es) = copies (count e) (node e) ++ expand es

lacks-line : (n : ℕ) → lacks b'\n' (b':' ∷ to_string n) ≡ true
unfolding lacks is_digit
lacks-line n = lacks-to_string b'\n' n refl

read_line-several :
    (n : List ℕ) (k : ℕ)
    → IsEntry (several n k)
    → read_line (n ++ (b':' ∷ to_string k)) ≡ some (record { value = n }, pos k)
unfolding read_line node count
read_line-several n k h =
    let slots = to_string k in
    rw
      (
        find-append b':' [] n slots h.no_colon,
        read_line,
        substr-front n (b':' ∷ slots),
        of_string-some n h.clean h.short,
        substr-after n (b':' ∷ []) slots (length n + 1) (length (n ++ (b':' ∷ slots))) (omega arith)
            (omega (arith, length-append n (b':' ∷ slots))),
        c_str-no_nul slots (lacks_nul-to_string k),
        atoi-to_string k h.small,
      )
      refl

read_line-once :
    (c : ℕ) (s : List ℕ)
    → IsEntry (once c s)
    → read_line (c ∷ s) ≡ some (record { value = c ∷ s }, pos 1)
unfolding read_line node count
read_line-once c s h =
    rw (find-lacks b':' [] (c ∷ s) h.no_colon, read_line, of_string-some (c ∷ s) h.clean h.short)
      refl

pub emplace_servers-copies :
    (n : ℕ) (node : List ℕ) (servers : List CharStruct)
    → emplace_servers n (record { value = node }) servers ≡ servers ++ copies n node
unfolding emplace_servers
emplace_servers-copies zero node servers = rw append-nil refl
emplace_servers-copies (suc n) node servers =
    emplace_servers-copies n node (servers ++ record { value = node } ∷ []) ∙ rw append_assoc refl

load_lines-read_line :
    (line : List ℕ) (lines : List (List ℕ)) (servers : List CharStruct)
    → 0 < length line
    → load_lines (line ∷ lines) servers ≡ (
        read_line line >>= λ (node, count).
        load_lines lines (emplace_servers (rounds count) node servers))
unfolding load_lines
load_lines-read_line [] lines servers some_byte = absurd (omega arith)
load_lines-read_line (c ∷ s) lines servers some_byte = refl

load_lines-line_text :
    (e : Entry) (lines : List (List ℕ)) (servers : List CharStruct)
    → IsEntry e
    → load_lines (line_text e ∷ lines) servers
      ≡ load_lines lines (servers ++ copies (count e) (node e))
unfolding load_lines line_text rounds node count
load_lines-line_text blank lines servers h = rw append-nil refl
load_lines-line_text (once c s) lines servers h =
    rw (read_line-once c s h, emplace_servers-copies 1 (c ∷ s) servers) refl
load_lines-line_text (several n k) lines servers h =
    rw
      (
        load_lines-read_line (n ++ (b':' ∷ to_string k)) lines servers
            (omega (arith, length-append n (b':' ∷ to_string k))),
        read_line-several n k h,
        emplace_servers-copies k n servers,
      )
      refl

line_text-one_line : (e : Entry) → IsEntry e → lacks b'\n' (line_text e) ≡ true
unfolding line_text lacks node
line_text-one_line blank h = refl
line_text-one_line (once c s) h = h.one_line
line_text-one_line (several n k) h =
    lacks-append b'\n' n (b':' ∷ to_string k) h.one_line (lacks-line k)

load_lines-expand :
    (es : List Entry) (servers : List CharStruct)
    → AllEntries es
    → load_lines (get_lines (print_list es)) servers ≡ some (servers ++ expand es)
unfolding load_lines get_lines print_list expand
load_lines-expand [] servers h = rw append-nil refl
load_lines-expand (e ∷ es) servers (h, hs) =
    rw
      (
        get_lines-append (line_text e) (print_list es) (line_text-one_line e h),
        load_lines-line_text e (get_lines (print_list es)) servers h,
        load_lines-expand es (servers ++ copies (count e) (node e)) hs,
        append_assoc,
      )
      refl

-- all servers of the list
unfoldable pub total : List Entry → ℕ
total [] = 0
total (e ∷ es) = count e + total es

pub length-copies : (n : ℕ) (node : List ℕ) → length (copies n node) ≡ n
length-copies zero node = refl
length-copies (suc n) node = ap suc (length-copies n node)

pub length-expand : (es : List Entry) → length (expand es) ≡ total es
unfolding expand total
length-expand [] = refl
length-expand (e ∷ es) = omega (
  arith,
  length-append (copies (count e) (node e)) (expand es),
  length-copies (count e) (node e),
  length-expand es,
)

pub read_servers-expand :
    (es : List Entry) → AllEntries es → read_servers (some (print_list es)) ≡ some (expand es)
unfolding read_servers
read_servers-expand es h = load_lines-expand es [] h

-- A file with a line for each entry, which is `node:count`, `node` alone or empty, each count an int, each
-- node shorter than 256 bytes with no colon, line end or zero byte: LoadServers returns, and lists each
-- node as often as its count says, one alone once, in the order of the lines; it keeps this list, sets
-- NUM_SERVERS to the sum of the counts, as a uint32_t, and changes no other setting.
pub load_servers-print_list :
    (files : Files) (c : ConfigurationManager) (es : List Entry)
    → AllEntries es
    → files c.server_list_path.value ≡ some (print_list es)
    → load_servers files c
      ≡ some (expand es, record c { server_list = expand es; num_servers = u32 (total es) })
unfolding load_servers string
load_servers-print_list files c es h file =
    rw (file, read_servers-expand es h, length-expand es) refl
