-- ===== src/Ios/Folder.antt =====
-- ppc/wii/ios.c, TW_ListIosFolder: the devices that can be opened, listed below a path.
use libtwilight.Prelude.{ℕ, List, [], ◌∷◌, codes}
use libtwilight.Prelude.Int.{ℤ}
use libtwilight.Paths.{write_matching_paths}

-- `_default_ios_devices`.
pub default_ios_devices : List (List ℕ)
default_ios_devices =
    codes "/dev/aes"
    ∷ codes "/dev/boot2"
    ∷ codes "/dev/di"
    ∷ codes "/dev/es"
    ∷ codes "/dev/flash"
    ∷ codes "/dev/fs"
    ∷ codes "/dev/hmac"
    ∷ codes "/dev/listen"
    ∷ codes "/dev/net"
    ∷ codes "/dev/net/ip/bottom"
    ∷ codes "/dev/net/ip/top"
    ∷ codes "/dev/net/ip/top/Progress"
    ∷ codes "/dev/net/kd"
    ∷ codes "/dev/net/kd/request"
    ∷ codes "/dev/net/kd/time"
    ∷ codes "/dev/net/ncd/manage"
    ∷ codes "/dev/net/ssl"
    ∷ codes "/dev/net/ssl/code"
    ∷ codes "/dev/net/usbeth"
    ∷ codes "/dev/net/usbeth/top"
    ∷ codes "/dev/net/wd"
    ∷ codes "/dev/net/wd/command"
    ∷ codes "/dev/net/wd/top"
    ∷ codes "/dev/printserver"
    ∷ codes "/dev/sdio"
    ∷ codes "/dev/sdio/slot0"
    ∷ codes "/dev/sha"
    ∷ codes "/dev/stm"
    ∷ codes "/dev/stm/eventhook"
    ∷ codes "/dev/stm/immediate"
    ∷ codes "/dev/usb"
    ∷ codes "/dev/usb/ehc"
    ∷ codes "/dev/usb/hid"
    ∷ codes "/dev/usb/hub"
    ∷ codes "/dev/usb/kbd"
    ∷ codes "/dev/usb/msc"
    ∷ codes "/dev/usb/oh0"
    ∷ codes "/dev/usb/oh1"
    ∷ codes "/dev/usb/shared"
    ∷ codes "/dev/usb/usb"
    ∷ codes "/dev/usb/ven"
    ∷ codes "/dev/usb/wfssrv"
    ∷ codes "/dev/wfsi"
    ∷ codes "/dev/wl0"
    ∷ []

-- `TW_ListIosFolder`, with the path empty for a null pointer or a length that is not positive.
pub list_folder {ℓ} : {S : Type ℓ} → (S → List ℕ → S × ℤ) → List ℕ → S → ℕ × S
unfolding default_ios_devices
list_folder transfer [] s = (0, s)
list_folder transfer (c ∷ path) s = write_matching_paths transfer (c ∷ path) default_ios_devices 0 s
