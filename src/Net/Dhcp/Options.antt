-- ===== src/Net/Dhcp/Options.antt =====
-- The options of a DHCP message as RFC 2132 writes them, and what each means to the client.
use ether_house.Base.{
  ℕ, ◌*◌, ◌/◌, ◌^◌, ◌<◌, ◌≢◌, Bool, false, ◌||◌, ◌==◌, List, [], ◌∷◌, ◌++◌, Ip, octets, u8, u32,
  length,
}
use ether_house.Net.{Net}
use ether_house.Net.Dhcp.{Dhcp}

-- Of the routers and the name servers the first, and the bytes of the others.
pub data DhcpOption : Type 0 where
  subnet_mask server_identifier : Ip → DhcpOption
  routers name_servers : Ip → List ℕ → DhcpOption
  lease_seconds renewal_seconds message_type : ℕ → DhcpOption
  other : ℕ → List ℕ → DhcpOption

-- A number of 32 bits, the highest byte first.
abbrev pub network_bytes : ℕ → List ℕ
network_bytes x = x / 2 ^ 24 ∷ u8 (x / 2 ^ 16) ∷ u8 (x / 2 ^ 8) ∷ u8 x ∷ []

abbrev pub option_code : DhcpOption → ℕ
option_code (subnet_mask a) = 1
option_code (routers a more) = 3
option_code (name_servers a more) = 6
option_code (lease_seconds s) = 51
option_code (message_type t) = 53
option_code (server_identifier a) = 54
option_code (renewal_seconds s) = 58
option_code (other c content) = c

abbrev pub option_data : DhcpOption → List ℕ
option_data (subnet_mask a) = octets a
option_data (routers a more) = octets a ++ more
option_data (name_servers a more) = octets a ++ more
option_data (lease_seconds s) = network_bytes s
option_data (message_type t) = t ∷ []
option_data (server_identifier a) = octets a
option_data (renewal_seconds s) = network_bytes s
option_data (other c content) = content

-- Times are numbers of 32 bits, and an option of another kind has none of the codes above, nor that
-- of the end.
abbrev pub IsOption : DhcpOption → Type 0
IsOption (lease_seconds s) = s < 2 ^ 32
IsOption (renewal_seconds s) = s < 2 ^ 32
IsOption (other c content) =
    (c ≢ 1) × (c ≢ 3) × (c ≢ 6) × (c ≢ 51) × (c ≢ 53) × (c ≢ 54) × (c ≢ 58) × (c ≢ 255)
IsOption _ = Unit

abbrev pub encode_option : DhcpOption → List ℕ
encode_option o = option_code o ∷ length (option_data o) ∷ option_data o

-- The options and the end option.
abbrev pub encode : List DhcpOption → List ℕ
encode [] = 255 ∷ []
encode (o ∷ rest) = encode_option o ++ encode rest

-- What an option tells the client. A time is kept in milliseconds of 32 bits.
abbrev pub learn_option : DhcpOption → Net × Dhcp → Net × Dhcp
learn_option (subnet_mask a) (n, d) = (record n { netmask = a }, d)
learn_option (routers a more) (n, d) = (record n { gwip = a }, d)
learn_option (name_servers a more) (n, d) = (record n { dnsip = a }, d)
learn_option (lease_seconds s) (n, d) = (n, record d { lease_time = u32 (s * 1000) })
learn_option (renewal_seconds s) (n, d) = (n, record d { lease_time = u32 (s * 1000) })
learn_option (server_identifier a) (n, d) = (n, record d { dhcpip = a })
learn_option (message_type t) (n, d) = (n, d)
learn_option (other c content) (n, d) = (n, d)

abbrev pub learn_options : List DhcpOption → Net × Dhcp → Net × Dhcp
learn_options [] s = s
learn_options (o ∷ rest) s = learn_options rest (learn_option o s)

-- A message of the type is among the options.
abbrev pub has_type : ℕ → List DhcpOption → Bool
has_type type [] = false
has_type type (message_type t ∷ rest) = t == type || has_type type rest
has_type type (_ ∷ rest) = has_type type rest
