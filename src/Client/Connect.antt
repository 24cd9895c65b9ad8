-- ===== src/Client/Connect.antt =====
-- src/VCacheClient.cpp: `connect`. What `getaddrinfo` finds, and what each address comes to, are arguments; the
-- time limits and `TCP_NODELAY`, whose results the code does not look at, are left out.
use redis_like_in_memory_dat.Base.{
  ℕ, ◌≡◌, refl, Bytes, codes, List, [], ◌∷◌, ◌++◌, Bool, true, false,
}
use redis_like_in_memory_dat.Client.Command.{VCacheClient, disconnect}
use redis_like_in_memory_dat.Protocol.Count.{to_string}

-- What `socket` and `connect` come to for an address.
pub data Tried : Type 0 where
  no_socket refused connects : Tried

-- What `getaddrinfo` comes to: the text of its error, or the addresses.
pub data Lookup : Type 0 where
  unresolved : Bytes → Lookup
  resolved : List Tried → Lookup

-- The loop over the candidates.
unfoldable pub try_addresses : List Tried → VCacheClient → VCacheClient × Bool
try_addresses [] c = (c, false)
try_addresses (no_socket ∷ candidates) c = try_addresses candidates c
try_addresses (refused ∷ candidates) c = try_addresses candidates c
try_addresses (connects ∷ candidates) c = (record c { connected = true }, true)

abbrev pub cannot_connect : Bytes → ℕ → Bytes → Bytes
cannot_connect host port text =
    codes "cannot connect to " ++ host ++ codes ":" ++ to_string port ++ codes ": " ++ text

abbrev pub after_addresses : Bytes → VCacheClient × Bool → VCacheClient × Bool × Bytes
after_addresses text (c, true) = (c, true, [])
after_addresses text (c, false) = (c, false, text)

-- The client, whether it is connected, and the text of the error; `text` is that of the last `errno`.
unfoldable pub connect : Bytes → ℕ → Lookup → Bytes → VCacheClient → VCacheClient × Bool × Bytes
unfolding disconnect try_addresses
connect host port (unresolved why) text c =
    (disconnect c, false, codes "cannot resolve '" ++ host ++ codes "': " ++ why)
connect host port (resolved candidates) text c =
    after_addresses (cannot_connect host port text) (try_addresses candidates (disconnect c))

-- A client that is connected has nothing left in its buffer from an earlier connection, and one that is not
-- holds no descriptor.
pub data IsFresh : VCacheClient × Bool × Bytes → Type 0 where
  is_connected :
      (c : VCacheClient) (text : Bytes)
      → c.connected ≡ true
      → c.buffer ≡ []
      → IsFresh (c, true, text)
  is_apart :
      (c : VCacheClient) (text : Bytes)
      → c.connected ≡ false
      → c.buffer ≡ []
      → IsFresh (c, false, text)

addresses-IsFresh :
    (candidates : List Tried) (text : Bytes) (c : VCacheClient)
    → c.connected ≡ false
    → c.buffer ≡ []
    → IsFresh (after_addresses text (try_addresses candidates c))
unfolding try_addresses
addresses-IsFresh [] text c h k = is_apart c text h k
addresses-IsFresh (no_socket ∷ candidates) text c h k = addresses-IsFresh candidates text c h k
addresses-IsFresh (refused ∷ candidates) text c h k = addresses-IsFresh candidates text c h k
addresses-IsFresh (connects ∷ candidates) text c h k =
    is_connected (record c { connected = true }) [] refl k

pub connect-IsFresh :
    (host : Bytes) (port : ℕ) (lookup : Lookup) (text : Bytes) (c : VCacheClient)
    → IsFresh (connect host port lookup text c)
unfolding connect disconnect
connect-IsFresh host port (unresolved why) text c = is_apart _ _ refl refl
connect-IsFresh host port (resolved candidates) text c =
    addresses-IsFresh candidates (cannot_connect host port text) (disconnect c) refl refl
