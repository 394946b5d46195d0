-- ===== src/Connect/Address.antt =====
-- net/connect/connect.go: the text that stands for a peer's address, by which the server finds its
-- connection.
use Prim.Native.String.{String}
use zput_net_golang.Prelude.{ℕ, List, length, ◌≡◌, refl}

-- What the function uses of Go's net, strconv and fmt.
pub record AddressText : Type 0 where
  pub ip_string : List ℕ → String
  pub join_host_port : String → String → String
  pub itoa : ℕ → String
  pub unknown : String → String

-- `ip_string` of 4 bytes is the dotted form of them, `itoa` the decimal form, and `join_host_port` has
-- the port behind the last colon.
pub record AddressLaws (A : AddressText) : Type 0 where
  pub ip_string_injective :
      (xs ys : List ℕ) → length xs ≡ 4 → length ys ≡ 4 → A.ip_string xs ≡ A.ip_string ys → xs ≡ ys
  pub itoa_injective : (m n : ℕ) → A.itoa m ≡ A.itoa n → m ≡ n
  pub join_injective :
      (xs ys : List ℕ) (m n : ℕ)
      → A.join_host_port (A.ip_string xs) (A.itoa m) ≡ A.join_host_port (A.ip_string ys) (A.itoa n)
      → (A.ip_string xs ≡ A.ip_string ys) × (A.itoa m ≡ A.itoa n)

-- `unix.Sockaddr`: an address with a port, the second also with a zone, or another type by its name.
pub data Sockaddr : Type 0 where
  inet4 : (addr : List ℕ) (port : ℕ) → Sockaddr
  inet6 : (addr : List ℕ) (port zone_id : ℕ) → Sockaddr
  other : (type_name : String) → Sockaddr

module _ (A : AddressText) where
  unfoldable pub sock_addr_to_string : Sockaddr → String
  sock_addr_to_string (inet4 addr port) = A.join_host_port (A.ip_string addr) (A.itoa port)
  sock_addr_to_string (inet6 addr port zone_id) = A.join_host_port (A.ip_string addr) (A.itoa port)
  sock_addr_to_string (other type_name) = A.unknown type_name

  -- Two peers over IPv4 have the same text only when address and port are the same; two over IPv6 have
  -- it already when only their zones differ.
  pub addresses_told_apart :
      (laws : AddressLaws A) (xs ys : List ℕ) (m n : ℕ)
      → length xs ≡ 4
      → length ys ≡ 4
      → (sock_addr_to_string (inet4 xs m) ≡ sock_addr_to_string (inet4 ys n) → (xs ≡ ys) × (m ≡ n))
        × ((y z : ℕ) → sock_addr_to_string (inet6 xs m y) ≡ sock_addr_to_string (inet6 xs m z))
  unfolding sock_addr_to_string
  addresses_told_apart laws xs ys m n h4 k4 = (
    (λ e.
        let (p, q) = laws.join_injective xs ys m n e in
        (laws.ip_string_injective xs ys h4 k4 p, laws.itoa_injective m n q)),
    (λ y z. refl),
  )
