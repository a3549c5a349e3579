-- ===== src/Pseudo/Names.antt =====
-- The paths and the texts of src/fs/vfs.c and src/fs/devtmpfs.c.
use peanut_kernel.Common.{ℕ, List, [], ◌∷◌}

abbrev pub path_dev : List ℕ
path_dev = b'/' ∷ b'd' ∷ b'e' ∷ b'v' ∷ []

abbrev pub path_zero : List ℕ
path_zero = b'/' ∷ b'd' ∷ b'e' ∷ b'v' ∷ b'/' ∷ b'z' ∷ b'e' ∷ b'r' ∷ b'o' ∷ []

abbrev pub path_random : List ℕ
path_random = b'/' ∷ b'd' ∷ b'e' ∷ b'v' ∷ b'/' ∷ b'r' ∷ b'a' ∷ b'n' ∷ b'd' ∷ b'o' ∷ b'm' ∷ []

abbrev pub path_urandom : List ℕ
path_urandom =
    b'/' ∷ b'd' ∷ b'e' ∷ b'v' ∷ b'/' ∷ b'u' ∷ b'r' ∷ b'a' ∷ b'n' ∷ b'd' ∷ b'o' ∷ b'm' ∷ []

abbrev pub path_kbd : List ℕ
path_kbd = b'/' ∷ b'd' ∷ b'e' ∷ b'v' ∷ b'/' ∷ b'k' ∷ b'b' ∷ b'd' ∷ []

abbrev pub path_mouse : List ℕ
path_mouse = b'/' ∷ b'd' ∷ b'e' ∷ b'v' ∷ b'/' ∷ b'm' ∷ b'o' ∷ b'u' ∷ b's' ∷ b'e' ∷ []

abbrev pub path_dev_fstab : List ℕ
path_dev_fstab = b'/' ∷ b'd' ∷ b'e' ∷ b'v' ∷ b'/' ∷ b'f' ∷ b's' ∷ b't' ∷ b'a' ∷ b'b' ∷ []

abbrev pub path_proc : List ℕ
path_proc = b'/' ∷ b'p' ∷ b'r' ∷ b'o' ∷ b'c' ∷ []

abbrev pub path_sys : List ℕ
path_sys = b'/' ∷ b's' ∷ b'y' ∷ b's' ∷ []

abbrev pub path_etc : List ℕ
path_etc = b'/' ∷ b'e' ∷ b't' ∷ b'c' ∷ []

abbrev pub path_version : List ℕ
path_version =
    b'/' ∷ b'p' ∷ b'r' ∷ b'o' ∷ b'c' ∷ b'/' ∷ b'v' ∷ b'e' ∷ b'r' ∷ b's' ∷ b'i' ∷ b'o' ∷ b'n' ∷ []

abbrev pub path_name : List ℕ
path_name =
    b'/' ∷ b's' ∷ b'y' ∷ b's' ∷ b'/' ∷ b'k' ∷ b'e' ∷ b'r' ∷ b'n' ∷ b'e' ∷ b'l' ∷ b'/' ∷ b'n' ∷ b'a'
    ∷ b'm' ∷ b'e' ∷ []

abbrev pub path_hdmi : List ℕ
path_hdmi =
    b'/' ∷ b's' ∷ b'y' ∷ b's' ∷ b'/' ∷ b'd' ∷ b'e' ∷ b'v' ∷ b'i' ∷ b'c' ∷ b'e' ∷ b's' ∷ b'/' ∷ b'h'
    ∷ b'd' ∷ b'm' ∷ b'i' ∷ []

abbrev pub path_passwd : List ℕ
path_passwd = b'/' ∷ b'e' ∷ b't' ∷ b'c' ∷ b'/' ∷ b'p' ∷ b'a' ∷ b's' ∷ b's' ∷ b'w' ∷ b'd' ∷ []

abbrev pub path_fstab : List ℕ
path_fstab = b'/' ∷ b'e' ∷ b't' ∷ b'c' ∷ b'/' ∷ b'f' ∷ b's' ∷ b't' ∷ b'a' ∷ b'b' ∷ []

abbrev pub text_dev : List ℕ
text_dev =
    b'z' ∷ b'e' ∷ b'r' ∷ b'o' ∷ 0x0A ∷ b'r' ∷ b'a' ∷ b'n' ∷ b'd' ∷ b'o' ∷ b'm' ∷ 0x0A ∷ b'u' ∷ b'r'
    ∷ b'a' ∷ b'n' ∷ b'd' ∷ b'o' ∷ b'm' ∷ 0x0A ∷ b'k' ∷ b'b' ∷ b'd' ∷ 0x0A ∷ b'm' ∷ b'o' ∷ b'u'
    ∷ b's' ∷ b'e' ∷ 0x0A ∷ b'f' ∷ b's' ∷ b't' ∷ b'a' ∷ b'b' ∷ 0x0A ∷ []

abbrev pub text_fstab : List ℕ
text_fstab =
    b'd' ∷ b'e' ∷ b'v' ∷ b't' ∷ b'm' ∷ b'p' ∷ b'f' ∷ b's' ∷ b' ' ∷ b'/' ∷ b'd' ∷ b'e' ∷ b'v' ∷ b' '
    ∷ b'd' ∷ b'e' ∷ b'v' ∷ b't' ∷ b'm' ∷ b'p' ∷ b'f' ∷ b's' ∷ b' ' ∷ b'r' ∷ b'w' ∷ b' ' ∷ b'0'
    ∷ b' ' ∷ b'0' ∷ 0x0A ∷ b'p' ∷ b'r' ∷ b'o' ∷ b'c' ∷ b' ' ∷ b'/' ∷ b'p' ∷ b'r' ∷ b'o' ∷ b'c'
    ∷ b' ' ∷ b'p' ∷ b'r' ∷ b'o' ∷ b'c' ∷ b' ' ∷ b'r' ∷ b'o' ∷ b' ' ∷ b'0' ∷ b' ' ∷ b'0' ∷ 0x0A
    ∷ b's' ∷ b'y' ∷ b's' ∷ b'f' ∷ b's' ∷ b' ' ∷ b'/' ∷ b's' ∷ b'y' ∷ b's' ∷ b' ' ∷ b's' ∷ b'y'
    ∷ b's' ∷ b'f' ∷ b's' ∷ b' ' ∷ b'r' ∷ b'o' ∷ b' ' ∷ b'0' ∷ b' ' ∷ b'0' ∷ 0x0A ∷ []

abbrev pub text_version : List ℕ
text_version =
    b'P' ∷ b'e' ∷ b'a' ∷ b'n' ∷ b'u' ∷ b't' ∷ b' ' ∷ b'k' ∷ b'e' ∷ b'r' ∷ b'n' ∷ b'e' ∷ b'l' ∷ b' '
    ∷ b'p' ∷ b's' ∷ b'e' ∷ b'u' ∷ b'd' ∷ b'o' ∷ b' ' ∷ b'p' ∷ b'r' ∷ b'o' ∷ b'c' ∷ 0x0A ∷ []

abbrev pub text_name : List ℕ
text_name = b'P' ∷ b'e' ∷ b'a' ∷ b'n' ∷ b'u' ∷ b't' ∷ 0x0A ∷ []

abbrev pub text_passwd : List ℕ
text_passwd =
    b'r' ∷ b'o' ∷ b'o' ∷ b't' ∷ b':' ∷ b'x' ∷ b':' ∷ b'0' ∷ b':' ∷ b'0' ∷ b':' ∷ b'r' ∷ b'o' ∷ b'o'
    ∷ b't' ∷ b':' ∷ b'/' ∷ b'r' ∷ b'o' ∷ b'o' ∷ b't' ∷ b':' ∷ b'/' ∷ b's' ∷ b'b' ∷ b'i' ∷ b'n'
    ∷ b'/' ∷ b'i' ∷ b'n' ∷ b'i' ∷ b't' ∷ 0x0A ∷ b'u' ∷ b's' ∷ b'e' ∷ b'r' ∷ b':' ∷ b'x' ∷ b':'
    ∷ b'1' ∷ b'0' ∷ b'0' ∷ b'0' ∷ b':' ∷ b'1' ∷ b'0' ∷ b'0' ∷ b'0' ∷ b':' ∷ b'P' ∷ b'e' ∷ b'a'
    ∷ b'n' ∷ b'u' ∷ b't' ∷ b' ' ∷ b'U' ∷ b's' ∷ b'e' ∷ b'r' ∷ b':' ∷ b'/' ∷ b'h' ∷ b'o' ∷ b'm'
    ∷ b'e' ∷ b'/' ∷ b'u' ∷ b's' ∷ b'e' ∷ b'r' ∷ b':' ∷ b'/' ∷ b'b' ∷ b'i' ∷ b'n' ∷ b'/' ∷ b's'
    ∷ b'h' ∷ 0x0A ∷ []
