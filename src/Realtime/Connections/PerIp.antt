-- ===== src/Realtime/Connections/PerIp.antt =====
-- The texts and the counts by address of index.ts.
use playkaboom.Common.{
  ℕ, ◌+◌, ◌-◌, ◌&&◌, ◌||◌, Bool, Option, none, some, List, [], ◌∷◌, ltb, leb, ◌==◌, if◌then◌else◌,
}
use playkaboom.Sdk.Buffer.{Bytes, bytes_eq}

abbrev pub max_rpc_proxy_clients : ℕ
max_rpc_proxy_clients = 150

abbrev pub max_relay_clients : ℕ
max_relay_clients = 2000

abbrev pub max_relay_per_ip : ℕ
max_relay_per_ip = 20

abbrev pub max_rpc_proxy_per_ip : ℕ
max_rpc_proxy_per_ip = 5

-- A text up to the first of a character: `text.split(mark)[0]`
unfoldable pub before : ℕ → Bytes → Bytes
before mark [] = []
before mark (c ∷ cs) = let rest = before mark cs in if c == mark then [] else c ∷ rest

-- `text.trim()` of a text of ASCII: spaces, tabs, line ends and feeds
unfoldable pub is_space : ℕ → Bool
is_space c = c == 32 || (leb 9 c && leb c 13)

unfoldable pub trim_start : Bytes → Bytes
unfolding is_space
trim_start [] = []
trim_start (c ∷ cs) = if is_space c then trim_start cs else c ∷ cs

unfoldable pub trim_end : Bytes → Bytes
unfolding is_space
trim_end [] = []
trim_end (c ∷ cs) = elim (trim_end cs) [
  | [] ↦ if is_space c then [] else c ∷ []
  | d ∷ ds ↦ c ∷ d ∷ ds
]

-- `counts.get(ip)`, `counts.set(ip, n)` and `counts.delete(ip)`
abbrev pub Counts : Type 0
Counts = List (Bytes × ℕ)

unfoldable pub get_count : Counts → Bytes → Option ℕ
get_count [] ip = none
get_count ((k, n) ∷ rest) ip = if bytes_eq k ip then some n else get_count rest ip

unfoldable pub set_count : Counts → Bytes → ℕ → Counts
set_count [] ip n = (ip, n) ∷ []
set_count ((k, m) ∷ rest) ip n =
    let rest' = set_count rest ip n in if bytes_eq k ip then (ip, n) ∷ rest else (k, m) ∷ rest'

unfoldable pub delete_count : Counts → Bytes → Counts
delete_count [] ip = []
delete_count ((k, n) ∷ rest) ip =
    let rest' = delete_count rest ip in if bytes_eq k ip then rest' else (k, n) ∷ rest'

-- `n ?? d`
unfoldable pub or_else : Option ℕ → ℕ → ℕ
or_else none d = d
or_else (some n) d = n

-- `counts.get(ip) ?? 0`
unfoldable pub count : Counts → Bytes → ℕ
unfolding get_count or_else
count counts ip = or_else (get_count counts ip) 0

-- `countPerIp`, when a socket opens and when it closes
unfoldable pub count_open : Counts → Bytes → Counts
unfolding set_count count
count_open counts ip = set_count counts ip (count counts ip + 1)

unfoldable pub count_close : Counts → Bytes → Counts
unfolding set_count delete_count get_count or_else
count_close counts ip =
    let n = or_else (get_count counts ip) 1 - 1 in
    if ltb 0 n then set_count counts ip n else delete_count counts ip
