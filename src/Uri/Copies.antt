-- ===== src/Uri/Copies.antt =====
-- The copies of a URI.
use hcl.Base.{◌≡◌, ◌<◌, refl, Option, some, none, length}
use hcl.CharStruct.{CharStruct}
use hcl.CharStruct.Text.{copy_of-some}
use hcl.Uri.{Uri, copy_array, copy_uri, move_uri}

-- each text ends inside its array
abbrev Fits : CharStruct → Type 0
Fits a = length a.value < 256

abbrev ArrayFits : Option CharStruct → Type 0
ArrayFits none = Unit {0}
ArrayFits (some a) = Fits a

pub record IsTerminated (u : Uri) : Type 0 where
  pub protocol : Fits u.protocol
  pub user_uri : Fits u.user_uri
  pub device : Fits u.device
  pub interface : Fits u.interface
  pub ip : Fits u.ip
  pub client_uri : ArrayFits u.client_uri
  pub server_uri : ArrayFits u.server_uri
  pub endpoint_uri : ArrayFits u.endpoint_uri

copy_array-some : (o : Option CharStruct) → ArrayFits o → copy_array o ≡ some o
unfolding copy_array
copy_array-some none fits = refl
copy_array-some (some a) fits = rw (copy_of-some a.value fits) refl

-- A URI whose arrays all have their zero byte: the copy constructor makes the same URI, and the move
-- constructor one that is the same but for endpoint_uri, an array that it writes nothing to.
pub copy_uri-move_uri :
    (u : Uri)
    → IsTerminated u
    → (copy_uri u ≡ some u) × (move_uri u ≡ some (record u { endpoint_uri = none }))
unfolding copy_uri move_uri
copy_uri-move_uri u fits = (
  rw
      (
        copy_of-some u.protocol.value fits.protocol,
        copy_of-some u.user_uri.value fits.user_uri,
        copy_of-some u.device.value fits.device,
        copy_of-some u.interface.value fits.interface,
        copy_of-some u.ip.value fits.ip,
        copy_array-some u.client_uri fits.client_uri,
        copy_array-some u.server_uri fits.server_uri,
        copy_array-some u.endpoint_uri fits.endpoint_uri,
      )
      refl,
  rw
      (
        copy_of-some u.protocol.value fits.protocol,
        copy_of-some u.user_uri.value fits.user_uri,
        copy_of-some u.device.value fits.device,
        copy_of-some u.interface.value fits.interface,
        copy_of-some u.ip.value fits.ip,
        copy_array-some u.client_uri fits.client_uri,
        copy_array-some u.server_uri fits.server_uri,
      )
      refl,
)
