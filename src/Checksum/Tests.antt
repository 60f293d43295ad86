-- ===== src/Checksum/Tests.antt =====
-- The checksum of concrete bytes.
use os_stream_socket.Base.{◌≡◌, refl, [], ◌∷◌, ok}
use os_stream_socket.Checksum.{new, add, add_byte, fold, value}

value_of_three : value (add (1 ∷ 2 ∷ 3 ∷ []) (new 9)) ≡ ok 0xfbf4
unfolding value fold add add_byte new
value_of_three = refl
