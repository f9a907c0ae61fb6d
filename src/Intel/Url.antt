-- ===== src/Intel/Url.antt =====
-- What the gates call of Go's packages net/url and strconv, as an interface, and `net.JoinHostPort`.
use shard_lure.Common.{Bool, ◌||◌, Option, ◌++◌, Bytes, ℤ, codes, contains_byte, if◌then◌else◌}
use shard_lure.Netmatch.Parse.{NetLib}

pub record Url : Type 0 where
  pub scheme : Bytes
  pub host : Bytes
  pub has_user : Bool  -- User != nil
  pub hostname : Bytes  -- Hostname()
  pub port : Bytes  -- Port()
  pub without_fragment : Bytes  -- String() of a copy whose Fragment is empty

pub record UrlLib : Type 0 where
  pub net : NetLib
  pub parse : Bytes → Option Url  -- url.Parse, none on an error
  pub atoi : Bytes → Option ℤ  -- strconv.Atoi, none on an error

-- `net.JoinHostPort`
unfoldable pub join_host_port : Bytes → Bytes → Bytes
join_host_port host port =
    if contains_byte host b':' || contains_byte host b'%'
    then codes "[" ++ (host ++ (codes "]:" ++ port))
    else host ++ (codes ":" ++ port)
