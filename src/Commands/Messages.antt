-- ===== src/Commands/Messages.antt =====
-- The texts of the errors in src/redis_functions.cpp, as bytes.
use custom_redis.Base.{[], ◌∷◌}
use custom_redis.Wire.{Bytes}

-- "key does not exist"
abbrev pub no_key_mes : Bytes
no_key_mes =
    107 ∷ 101 ∷ 121 ∷ 32 ∷ 100 ∷ 111 ∷ 101 ∷ 115 ∷ 32 ∷ 110 ∷ 111 ∷ 116 ∷ 32 ∷ 101 ∷ 120 ∷ 105 ∷ 115
    ∷ 116 ∷ []

-- "key already exists in database but is not the correct type"
abbrev pub wrong_type_mes : Bytes
wrong_type_mes =
    107 ∷ 101 ∷ 121 ∷ 32 ∷ 97 ∷ 108 ∷ 114 ∷ 101 ∷ 97 ∷ 100 ∷ 121 ∷ 32 ∷ 101 ∷ 120 ∷ 105 ∷ 115 ∷ 116
    ∷ 115 ∷ 32 ∷ 105 ∷ 110 ∷ 32 ∷ 100 ∷ 97 ∷ 116 ∷ 97 ∷ 98 ∷ 97 ∷ 115 ∷ 101 ∷ 32 ∷ 98 ∷ 117 ∷ 116
    ∷ 32 ∷ 105 ∷ 115 ∷ 32 ∷ 110 ∷ 111 ∷ 116 ∷ 32 ∷ 116 ∷ 104 ∷ 101 ∷ 32 ∷ 99 ∷ 111 ∷ 114 ∷ 114 ∷ 101
    ∷ 99 ∷ 116 ∷ 32 ∷ 116 ∷ 121 ∷ 112 ∷ 101 ∷ []

-- "node does not exist"
abbrev pub no_node_mes : Bytes
no_node_mes =
    110 ∷ 111 ∷ 100 ∷ 101 ∷ 32 ∷ 100 ∷ 111 ∷ 101 ∷ 115 ∷ 32 ∷ 110 ∷ 111 ∷ 116 ∷ 32 ∷ 101 ∷ 120 ∷ 105
    ∷ 115 ∷ 116 ∷ []

-- "cant add zset to a non-zset node"
abbrev pub not_zset_mes : Bytes
not_zset_mes =
    99 ∷ 97 ∷ 110 ∷ 116 ∷ 32 ∷ 97 ∷ 100 ∷ 100 ∷ 32 ∷ 122 ∷ 115 ∷ 101 ∷ 116 ∷ 32 ∷ 116 ∷ 111 ∷ 32
    ∷ 97 ∷ 32 ∷ 110 ∷ 111 ∷ 110 ∷ 45 ∷ 122 ∷ 115 ∷ 101 ∷ 116 ∷ 32 ∷ 110 ∷ 111 ∷ 100 ∷ 101 ∷ []

-- "keyspace key is not of type hashmap"
abbrev pub not_hset_mes : Bytes
not_hset_mes =
    107 ∷ 101 ∷ 121 ∷ 115 ∷ 112 ∷ 97 ∷ 99 ∷ 101 ∷ 32 ∷ 107 ∷ 101 ∷ 121 ∷ 32 ∷ 105 ∷ 115 ∷ 32 ∷ 110
    ∷ 111 ∷ 116 ∷ 32 ∷ 111 ∷ 102 ∷ 32 ∷ 116 ∷ 121 ∷ 112 ∷ 101 ∷ 32 ∷ 104 ∷ 97 ∷ 115 ∷ 104 ∷ 109 ∷ 97
    ∷ 112 ∷ []

-- "[hset] node is not of type STR"
abbrev pub field_not_str_mes : Bytes
field_not_str_mes =
    91 ∷ 104 ∷ 115 ∷ 101 ∷ 116 ∷ 93 ∷ 32 ∷ 110 ∷ 111 ∷ 100 ∷ 101 ∷ 32 ∷ 105 ∷ 115 ∷ 32 ∷ 110 ∷ 111
    ∷ 116 ∷ 32 ∷ 111 ∷ 102 ∷ 32 ∷ 116 ∷ 121 ∷ 112 ∷ 101 ∷ 32 ∷ 83 ∷ 84 ∷ 82 ∷ []

-- "key already exists in the database and is not of type SET"
abbrev pub key_not_set_mes : Bytes
key_not_set_mes =
    107 ∷ 101 ∷ 121 ∷ 32 ∷ 97 ∷ 108 ∷ 114 ∷ 101 ∷ 97 ∷ 100 ∷ 121 ∷ 32 ∷ 101 ∷ 120 ∷ 105 ∷ 115 ∷ 116
    ∷ 115 ∷ 32 ∷ 105 ∷ 110 ∷ 32 ∷ 116 ∷ 104 ∷ 101 ∷ 32 ∷ 100 ∷ 97 ∷ 116 ∷ 97 ∷ 98 ∷ 97 ∷ 115 ∷ 101
    ∷ 32 ∷ 97 ∷ 110 ∷ 100 ∷ 32 ∷ 105 ∷ 115 ∷ 32 ∷ 110 ∷ 111 ∷ 116 ∷ 32 ∷ 111 ∷ 102 ∷ 32 ∷ 116 ∷ 121
    ∷ 112 ∷ 101 ∷ 32 ∷ 83 ∷ 69 ∷ 84 ∷ []

-- "node with the provided key does not exist"
abbrev pub no_provided_key_mes : Bytes
no_provided_key_mes =
    110 ∷ 111 ∷ 100 ∷ 101 ∷ 32 ∷ 119 ∷ 105 ∷ 116 ∷ 104 ∷ 32 ∷ 116 ∷ 104 ∷ 101 ∷ 32 ∷ 112 ∷ 114 ∷ 111
    ∷ 118 ∷ 105 ∷ 100 ∷ 101 ∷ 100 ∷ 32 ∷ 107 ∷ 101 ∷ 121 ∷ 32 ∷ 100 ∷ 111 ∷ 101 ∷ 115 ∷ 32 ∷ 110
    ∷ 111 ∷ 116 ∷ 32 ∷ 101 ∷ 120 ∷ 105 ∷ 115 ∷ 116 ∷ []

-- "key is not of type SET"
abbrev pub not_set_mes : Bytes
not_set_mes =
    107 ∷ 101 ∷ 121 ∷ 32 ∷ 105 ∷ 115 ∷ 32 ∷ 110 ∷ 111 ∷ 116 ∷ 32 ∷ 111 ∷ 102 ∷ 32 ∷ 116 ∷ 121 ∷ 112
    ∷ 101 ∷ 32 ∷ 83 ∷ 69 ∷ 84 ∷ []

-- "key already exists in database but is not of type BITMAP"
abbrev pub not_bitmap_mes : Bytes
not_bitmap_mes =
    107 ∷ 101 ∷ 121 ∷ 32 ∷ 97 ∷ 108 ∷ 114 ∷ 101 ∷ 97 ∷ 100 ∷ 121 ∷ 32 ∷ 101 ∷ 120 ∷ 105 ∷ 115 ∷ 116
    ∷ 115 ∷ 32 ∷ 105 ∷ 110 ∷ 32 ∷ 100 ∷ 97 ∷ 116 ∷ 97 ∷ 98 ∷ 97 ∷ 115 ∷ 101 ∷ 32 ∷ 98 ∷ 117 ∷ 116
    ∷ 32 ∷ 105 ∷ 115 ∷ 32 ∷ 110 ∷ 111 ∷ 116 ∷ 32 ∷ 111 ∷ 102 ∷ 32 ∷ 116 ∷ 121 ∷ 112 ∷ 101 ∷ 32 ∷ 66
    ∷ 73 ∷ 84 ∷ 77 ∷ 65 ∷ 80 ∷ []

-- "index must be in range [0, 2^32-1]"
abbrev pub index_mes : Bytes
index_mes =
    105 ∷ 110 ∷ 100 ∷ 101 ∷ 120 ∷ 32 ∷ 109 ∷ 117 ∷ 115 ∷ 116 ∷ 32 ∷ 98 ∷ 101 ∷ 32 ∷ 105 ∷ 110 ∷ 32
    ∷ 114 ∷ 97 ∷ 110 ∷ 103 ∷ 101 ∷ 32 ∷ 91 ∷ 48 ∷ 44 ∷ 32 ∷ 50 ∷ 94 ∷ 51 ∷ 50 ∷ 45 ∷ 49 ∷ 93 ∷ []

-- "bit has to be 0 or 1"
abbrev pub bit_value_mes : Bytes
bit_value_mes =
    98 ∷ 105 ∷ 116 ∷ 32 ∷ 104 ∷ 97 ∷ 115 ∷ 32 ∷ 116 ∷ 111 ∷ 32 ∷ 98 ∷ 101 ∷ 32 ∷ 48 ∷ 32 ∷ 111 ∷ 114
    ∷ 32 ∷ 49 ∷ []

-- "bitmap resize failed"
abbrev pub resize_mes : Bytes
resize_mes =
    98 ∷ 105 ∷ 116 ∷ 109 ∷ 97 ∷ 112 ∷ 32 ∷ 114 ∷ 101 ∷ 115 ∷ 105 ∷ 122 ∷ 101 ∷ 32 ∷ 102 ∷ 97 ∷ 105
    ∷ 108 ∷ 101 ∷ 100 ∷ []

-- "index outside of range"
abbrev pub bit_range_mes : Bytes
bit_range_mes =
    105 ∷ 110 ∷ 100 ∷ 101 ∷ 120 ∷ 32 ∷ 111 ∷ 117 ∷ 116 ∷ 115 ∷ 105 ∷ 100 ∷ 101 ∷ 32 ∷ 111 ∷ 102 ∷ 32
    ∷ 114 ∷ 97 ∷ 110 ∷ 103 ∷ 101 ∷ []

-- "node with the provided key exists and is not of type LIST"
abbrev pub key_not_list_mes : Bytes
key_not_list_mes =
    110 ∷ 111 ∷ 100 ∷ 101 ∷ 32 ∷ 119 ∷ 105 ∷ 116 ∷ 104 ∷ 32 ∷ 116 ∷ 104 ∷ 101 ∷ 32 ∷ 112 ∷ 114 ∷ 111
    ∷ 118 ∷ 105 ∷ 100 ∷ 101 ∷ 100 ∷ 32 ∷ 107 ∷ 101 ∷ 121 ∷ 32 ∷ 101 ∷ 120 ∷ 105 ∷ 115 ∷ 116 ∷ 115
    ∷ 32 ∷ 97 ∷ 110 ∷ 100 ∷ 32 ∷ 105 ∷ 115 ∷ 32 ∷ 110 ∷ 111 ∷ 116 ∷ 32 ∷ 111 ∷ 102 ∷ 32 ∷ 116 ∷ 121
    ∷ 112 ∷ 101 ∷ 32 ∷ 76 ∷ 73 ∷ 83 ∷ 84 ∷ []

-- "value must be positive"
abbrev pub not_positive_mes : Bytes
not_positive_mes =
    118 ∷ 97 ∷ 108 ∷ 117 ∷ 101 ∷ 32 ∷ 109 ∷ 117 ∷ 115 ∷ 116 ∷ 32 ∷ 98 ∷ 101 ∷ 32 ∷ 112 ∷ 111 ∷ 115
    ∷ 105 ∷ 116 ∷ 105 ∷ 118 ∷ 101 ∷ []

-- "index out of range"
abbrev pub list_range_mes : Bytes
list_range_mes =
    105 ∷ 110 ∷ 100 ∷ 101 ∷ 120 ∷ 32 ∷ 111 ∷ 117 ∷ 116 ∷ 32 ∷ 111 ∷ 102 ∷ 32 ∷ 114 ∷ 97 ∷ 110 ∷ 103
    ∷ 101 ∷ []

-- "key does not exist in the database"
abbrev pub no_list_key_mes : Bytes
no_list_key_mes =
    107 ∷ 101 ∷ 121 ∷ 32 ∷ 100 ∷ 111 ∷ 101 ∷ 115 ∷ 32 ∷ 110 ∷ 111 ∷ 116 ∷ 32 ∷ 101 ∷ 120 ∷ 105 ∷ 115
    ∷ 116 ∷ 32 ∷ 105 ∷ 110 ∷ 32 ∷ 116 ∷ 104 ∷ 101 ∷ 32 ∷ 100 ∷ 97 ∷ 116 ∷ 97 ∷ 98 ∷ 97 ∷ 115 ∷ 101
    ∷ []
