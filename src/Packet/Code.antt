-- ===== src/Packet/Code.antt =====
-- `radius.Code`: the packet codes that the code names.
use radius_go.Base.{ℕ}

abbrev pub access_accept : ℕ
access_accept = 2

abbrev pub access_reject : ℕ
access_reject = 3

abbrev pub accounting_response : ℕ
accounting_response = 5

abbrev pub disconnect_request : ℕ
disconnect_request = 40

abbrev pub disconnect_ack : ℕ
disconnect_ack = 41

abbrev pub coa_request : ℕ
coa_request = 43

abbrev pub coa_ack : ℕ
coa_ack = 44

abbrev pub coa_nak : ℕ
coa_nak = 45
