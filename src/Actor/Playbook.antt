-- ===== src/Actor/Playbook.antt =====
-- internal/actor/playbook.go: the playbook of an attacker. The rate is never negative and is compared
-- with whole numbers only, so it is given by its integer part; the ratios are compared exactly, as
-- Go's division rounds the same way on both sides. The two regular expressions are alternations of
-- literals, anchored at the start and not, and are matched as such.
pub mod Corpus
pub mod Reporting
use shard_lure.Common.{
  ℕ, suc, ◌+◌, ◌*◌, Bool, true, false, ◌&&◌, ◌||◌, not, List, [], ◌∷◌, map, any, length, Bytes,
  codes, eqb, has_key, has_prefix, to_lower, ltb, leb, ◌==◌, if◌then◌else◌,
}

abbrev pub cn_prefixes : List Bytes
cn_prefixes = map codes (
    "zhang" ∷ "chen" ∷ "wang" ∷ "li" ∷ "liu" ∷ "yang" ∷ "huang" ∷ "zhao" ∷ "wu" ∷ "zhou" ∷ "xu"
    ∷ "sun" ∷ "ma" ∷ "zhu" ∷ "hu" ∷ "guo" ∷ "he" ∷ "gao" ∷ "lin" ∷ "luo" ∷ "zheng" ∷ "liang" ∷ "xie"
    ∷ "song" ∷ "tang" ∷ "han" ∷ "feng" ∷ "yu" ∷ "dong" ∷ "wei" ∷ "ye" ∷ "shi" ∷ "weiqq" ∷ "yaojun"
    ∷ "wenshuo" ∷ [])

abbrev pub service_users : List Bytes
service_users =
    map codes
      ("oracle" ∷ "hadoop" ∷ "postgres" ∷ "mysql" ∷ "jenkins" ∷ "gitlab" ∷ "ftpuser" ∷ "redis" ∷ [])

abbrev pub crypto_users : List Bytes
crypto_users = map codes ("sol" ∷ "solana" ∷ "ethereum" ∷ "miner" ∷ [])

abbrev pub scanner_tools : List Bytes
scanner_tools = map codes (
    "libssh" ∷ "libssh2" ∷ "nmap" ∷ "zgrab" ∷ "zmap" ∷ "masscan" ∷ "phpseclib" ∷ "asyncssh"
    ∷ "rawpasswordconnectonly" ∷ "paramiko" ∷ "openssh-for-windows" ∷ "ssh-2.0-go" ∷ "recon-ng"
    ∷ "hydra" ∷ "medusa" ∷ "ncrack" ∷ [])

-- `strings.Contains`
unfoldable pub has_part : Bytes → Bytes → Bool
has_part [] p = has_prefix [] p
has_part (c ∷ s) p = has_prefix (c ∷ s) p || has_part s p

abbrev pub is_lower_alpha : ℕ → Bool
is_lower_alpha r = (leb b'a' r && leb r b'z') || r == b'_'

unfoldable pub count_alpha : Bytes → ℕ
count_alpha [] = 0
count_alpha (c ∷ s) = let rest = count_alpha s in if is_lower_alpha c then suc rest else rest

-- `isMostlyLowerAlpha`, on a text of one byte for each rune
unfoldable pub is_mostly_lower_alpha : Bytes → Bool
is_mostly_lower_alpha s =
    if ltb (length s) 3 then false else ltb (length s * 85) (count_alpha s * 100)

-- `playbookFeatures`
pub record Features : Type 0 where
  pub users : ℕ
  pub cn : ℕ
  pub svc : ℕ
  pub crypto : ℕ
  pub admin : ℕ
  pub k8s : ℕ

abbrev pub no_features : Features
no_features = record { users = 0; cn = 0; svc = 0; crypto = 0; admin = 0; k8s = 0 }

abbrev pub one_if : Bool → ℕ
one_if true = 1
one_if false = 0

unfoldable pub is_default_user : Bytes → Bool
is_default_user lu =
    eqb lu (codes "admin")
    || (eqb lu (codes "root") || (eqb lu (codes "user") || eqb lu (codes "test")))

unfoldable pub is_ops_user : Bytes → Bool
is_ops_user lu = has_part lu (codes "k8s") || (eqb lu (codes "deploy") || eqb lu (codes "ci"))

unfoldable pub is_cn_user : Bytes → Bool
is_cn_user lu = any (has_prefix lu) cn_prefixes || (leb 4 (length lu) && is_mostly_lower_alpha lu)

-- `add`
unfoldable pub add : Features → Bytes → Features
add f user =
    let lu = to_lower user in
    record {
      users = f.users + 1;
      cn = f.cn + one_if (is_cn_user lu);
      svc = f.svc + one_if (has_key service_users lu);
      crypto = f.crypto + one_if (has_key crypto_users lu);
      admin = f.admin + one_if (is_default_user lu);
      k8s = f.k8s + one_if (is_ops_user lu);
    }

-- The loop of `ClassifyPlaybook`.
unfoldable pub add_all : Features → List Bytes → Features
add_all f [] = f
add_all f (user ∷ usernames) = add_all (add f user) usernames

-- `classify`
unfoldable pub classify : Features → ℕ → Bytes
classify f rate =
    if f.users == 0
    then codes "unknown"
    else if leb 120 rate && ltb (3 * f.users) (10 * f.cn)
    then codes "fast_dictionary_spray"
    else if leb 2 f.svc && ltb rate 80
    then codes "service_account_enum"
    else if leb 2 f.crypto || (leb 1 f.crypto && leb (3 * f.users) (20 * f.crypto))
    then codes "crypto_target"
    else if leb 2 f.k8s
    then codes "ops_target"
    else if leb 2 f.admin && leb 40 rate
    then codes "default_credential_spray"
    else if leb 60 rate
    then codes "dictionary_spray"
    else codes "opportunistic"

-- `ClassifyPlaybook`
unfoldable pub classify_playbook : List Bytes → ℕ → Bytes
classify_playbook usernames rate = classify (add_all no_features usernames) rate

-- `cowriePlaybook`
unfoldable pub cowrie_playbook : Bytes → Bytes → Bool → Bool → Bool → Bool → Bytes
cowrie_playbook corpus_playbook ssh_client has_auth has_command has_tunnel has_payload =
    if has_auth || (has_command || (has_tunnel || has_payload))
    then corpus_playbook
    else if any (has_part (to_lower ssh_client)) scanner_tools
    then codes "scanner_tool"
    else codes "handshake_scan"

-- `ClassifyCowriePlaybook`
unfoldable pub classify_cowrie_playbook : List Bytes → ℕ → Bytes → Bool → Bool → Bool → Bool → Bytes
classify_cowrie_playbook usernames rate ssh_client has_auth has_command has_tunnel has_payload =
    cowrie_playbook (classify_playbook usernames rate) ssh_client has_auth has_command has_tunnel
      has_payload
