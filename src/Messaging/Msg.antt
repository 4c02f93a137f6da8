-- ===== src/Messaging/Msg.antt =====
-- `msg_type_t` of firmware/inc/host_messaging.h: the values of the enumeration, since a command byte
-- is cast to it unchecked.
use Prim.Native.Nat.{ℕ}

abbrev pub list_files : ℕ
list_files = 0x4C

abbrev pub read : ℕ
read = 0x52

abbrev pub write : ℕ
write = 0x57

abbrev pub receive : ℕ
receive = 0x43

abbrev pub interrogate : ℕ
interrogate = 0x49

abbrev pub listen : ℕ
listen = 0x4E

abbrev pub ack : ℕ
ack = 0x41

abbrev pub debug : ℕ
debug = 0x44

abbrev pub error : ℕ
error = 0x45

abbrev pub echo : ℕ
echo = 0xEE

abbrev pub delete_file : ℕ
delete_file = 0x58

abbrev pub change_pin : ℕ
change_pin = 0x50

abbrev pub boot_flag : ℕ
boot_flag = 0x47

abbrev pub digest : ℕ
digest = 0x48
