-- ===== src/Message/Table.antt =====
-- lib/pfcp/src/pfcp_message.c: `ieDescriptionTable` as it stands.
use het_bed.Base.{ℕ, List, [], ◌∷◌, ◌++◌, true, false}
use het_bed.Message.{IeDescription}

abbrev tlv_row : ℕ → IeDescription
tlv_row t = record { msg_type = t; is_tlv_obj = true; next = [] }

abbrev group_row : ℕ → List ℕ → IeDescription
group_row t next = record { msg_type = t; is_tlv_obj = false; next = next }

-- Rows 0 to 99.
unfoldable first_rows : List IeDescription
first_rows =
    tlv_row 0
    ∷ group_row 1 (56 ∷ 29 ∷ 2 ∷ 95 ∷ 108 ∷ 81 ∷ 109 ∷ 109 ∷ 109 ∷ 109 ∷ 106 ∷ [])
    ∷ group_row 2 (20 ∷ 21 ∷ 22 ∷ 93 ∷ 131 ∷ 23 ∷ 24 ∷ 142 ∷ 132 ∷ 124 ∷ 153 ∷ 154 ∷ 155 ∷ [])
    ∷ group_row 3 (108 ∷ 44 ∷ 4 ∷ 5 ∷ 88 ∷ [])
    ∷ group_row 4 (42 ∷ 22 ∷ 38 ∷ 84 ∷ 30 ∷ 41 ∷ 98 ∷ 131 ∷ 137 ∷ [])
    ∷ group_row 5 (42 ∷ 84 ∷ 30 ∷ 41 ∷ [])
    ∷ group_row 6 (
        81 ∷ 62 ∷ 37 ∷ 64 ∷ 31 ∷ 73 ∷ 32 ∷ 74 ∷ 71 ∷ 72 ∷ 33 ∷ 148 ∷ 34 ∷ 35 ∷ 121 ∷ 122 ∷ 36 ∷ 82
        ∷ 100 ∷ 115 ∷ 118 ∷ 108 ∷ 146 ∷ 147 ∷ [])
    ∷ group_row 7 (109 ∷ 28 ∷ 25 ∷ 26 ∷ 27 ∷ 94 ∷ 97 ∷ 124 ∷ 123 ∷ [])
    ∷ group_row 8 (56 ∷ 21 ∷ [])
    ∷ group_row 9 (56 ∷ 95 ∷ 29 ∷ 2 ∷ 108 ∷ 81 ∷ 109 ∷ 109 ∷ 109 ∷ 109 ∷ 106 ∷ 107 ∷ [])
    ∷ group_row 10 (108 ∷ 44 ∷ 11 ∷ 105 ∷ 88 ∷ [])
    ∷ group_row 11 (42 ∷ 22 ∷ 38 ∷ 84 ∷ 30 ∷ 41 ∷ 98 ∷ 49 ∷ 131 ∷ [])
    ∷ group_row 12 (88 ∷ 46 ∷ 47 ∷ 48 ∷ 140 ∷ [])
    ∷ group_row 13 (
        81 ∷ 62 ∷ 37 ∷ 64 ∷ 31 ∷ 73 ∷ 32 ∷ 74 ∷ 71 ∷ 72 ∷ 33 ∷ 148 ∷ 34 ∷ 35 ∷ 121 ∷ 122 ∷ 36 ∷ 82
        ∷ 100 ∷ 115 ∷ 118 ∷ 108 ∷ 146 ∷ 147 ∷ [])
    ∷ group_row 14 (109 ∷ 28 ∷ 25 ∷ 26 ∷ 27 ∷ 94 ∷ 97 ∷ 124 ∷ 123 ∷ [])
    ∷ group_row 15 (56 ∷ [])
    ∷ group_row 16 (108 ∷ [])
    ∷ group_row 17 (81 ∷ [])
    ∷ group_row 18 (109 ∷ [])
    ∷ tlv_row 19
    ∷ tlv_row 20
    ∷ tlv_row 21
    ∷ tlv_row 22
    ∷ tlv_row 23
    ∷ tlv_row 24
    ∷ tlv_row 25
    ∷ tlv_row 26
    ∷ tlv_row 27
    ∷ tlv_row 28
    ∷ tlv_row 29
    ∷ tlv_row 30
    ∷ tlv_row 31
    ∷ tlv_row 32
    ∷ tlv_row 33
    ∷ tlv_row 34
    ∷ tlv_row 35
    ∷ tlv_row 36
    ∷ tlv_row 37
    ∷ tlv_row 38
    ∷ tlv_row 39
    ∷ tlv_row 40
    ∷ tlv_row 41
    ∷ tlv_row 42
    ∷ tlv_row 43
    ∷ tlv_row 44
    ∷ tlv_row 45
    ∷ tlv_row 46
    ∷ tlv_row 47
    ∷ tlv_row 48
    ∷ tlv_row 49
    ∷ tlv_row 50
    ∷ group_row 51 (52 ∷ 53 ∷ [])
    ∷ tlv_row 52
    ∷ tlv_row 53
    ∷ group_row 54 (52 ∷ 53 ∷ 55 ∷ 110 ∷ [])
    ∷ tlv_row 55
    ∷ tlv_row 56
    ∷ tlv_row 57
    ∷ group_row 58 (24 ∷ 59 ∷ [])
    ∷ group_row 59 (61 ∷ [])
    ∷ tlv_row 60
    ∷ tlv_row 61
    ∷ tlv_row 62
    ∷ tlv_row 63
    ∷ tlv_row 64
    ∷ tlv_row 65
    ∷ tlv_row 66
    ∷ tlv_row 67
    ∷ group_row 68 (24 ∷ 91 ∷ 92 ∷ [])
    ∷ tlv_row 69
    ∷ tlv_row 70
    ∷ tlv_row 71
    ∷ tlv_row 72
    ∷ tlv_row 73
    ∷ tlv_row 74
    ∷ tlv_row 75
    ∷ tlv_row 76
    ∷ group_row 77 (81 ∷ [])
    ∷ group_row 78 (81 ∷ 104 ∷ 63 ∷ 75 ∷ 76 ∷ 66 ∷ 67 ∷ 69 ∷ 70 ∷ 90 ∷ 125 ∷ 143 ∷ [])
    ∷ group_row 79 (81 ∷ 104 ∷ 63 ∷ 75 ∷ 76 ∷ 66 ∷ 67 ∷ 69 ∷ 70 ∷ 90 ∷ 143 ∷ [])
    ∷ group_row 80
        (81 ∷ 104 ∷ 63 ∷ 75 ∷ 76 ∷ 66 ∷ 67 ∷ 68 ∷ 93 ∷ 22 ∷ 69 ∷ 70 ∷ 90 ∷ 125 ∷ 149 ∷ 143 ∷ [])
    ∷ tlv_row 81
    ∷ tlv_row 82
    ∷ group_row 83 (56 ∷ 45 ∷ [])
    ∷ tlv_row 84
    ∷ group_row 85 (88 ∷ 46 ∷ 140 ∷ [])
    ∷ group_row 86 (88 ∷ 46 ∷ 140 ∷ [])
    ∷ group_row 87 (88 ∷ [])
    ∷ tlv_row 88
    ∷ tlv_row 89
    ∷ tlv_row 90
    ∷ tlv_row 91
    ∷ tlv_row 92
    ∷ tlv_row 93
    ∷ tlv_row 94
    ∷ tlv_row 95
    ∷ tlv_row 96
    ∷ tlv_row 97
    ∷ tlv_row 98
    ∷ group_row 99 (21 ∷ [])
    ∷ []

-- Rows 100 to 155.
unfoldable last_rows : List IeDescription
last_rows =
    tlv_row 100
    ∷ tlv_row 101
    ∷ group_row 102 (103 ∷ [])
    ∷ tlv_row 103
    ∷ tlv_row 104
    ∷ group_row 105 (42 ∷ 84 ∷ 30 ∷ 41 ∷ [])
    ∷ tlv_row 106
    ∷ tlv_row 107
    ∷ tlv_row 108
    ∷ tlv_row 109
    ∷ tlv_row 110
    ∷ group_row 111 (60 ∷ [])
    ∷ tlv_row 112
    ∷ tlv_row 113
    ∷ tlv_row 114
    ∷ tlv_row 115
    ∷ tlv_row 116
    ∷ tlv_row 117
    ∷ group_row 118 (120 ∷ 119 ∷ [])
    ∷ tlv_row 119
    ∷ tlv_row 120
    ∷ tlv_row 121
    ∷ tlv_row 122
    ∷ tlv_row 123
    ∷ tlv_row 124
    ∷ tlv_row 125
    ∷ tlv_row 126
    ∷ group_row 127 (131 ∷ 21 ∷ 22 ∷ 93 ∷ 142 ∷ 153 ∷ 154 ∷ 155 ∷ [])
    ∷ group_row 128 (131 ∷ 21 ∷ [])
    ∷ group_row 129 (131 ∷ 21 ∷ 22 ∷ 93 ∷ 153 ∷ 154 ∷ 155 ∷ [])
    ∷ group_row 130 (131 ∷ [])
    ∷ tlv_row 131
    ∷ group_row 132 (138 ∷ 139 ∷ 133 ∷ 136 ∷ 134 ∷ 135 ∷ 23 ∷ [])
    ∷ tlv_row 133
    ∷ tlv_row 134
    ∷ tlv_row 135
    ∷ tlv_row 136
    ∷ tlv_row 137
    ∷ tlv_row 138
    ∷ tlv_row 139
    ∷ tlv_row 140
    ∷ tlv_row 141
    ∷ tlv_row 142
    ∷ group_row 143 (144 ∷ 145 ∷ [])
    ∷ tlv_row 144
    ∷ tlv_row 145
    ∷ tlv_row 146
    ∷ group_row 147 (33 ∷ 34 ∷ 35 ∷ 121 ∷ 122 ∷ [])
    ∷ group_row 148 (150 ∷ 151 ∷ [])
    ∷ group_row 149 (150 ∷ [])
    ∷ tlv_row 150
    ∷ tlv_row 151
    ∷ tlv_row 152
    ∷ tlv_row 153
    ∷ tlv_row 154
    ∷ tlv_row 155
    ∷ []

-- Rows 156 to 176, with the IEs of the messages.
unfoldable message_rows : List IeDescription
message_rows =
    group_row 0 (96 ∷ [])
    ∷ group_row 0 (96 ∷ [])
    ∷ group_row 0 (58 ∷ [])
    ∷ group_row 0 (19 ∷ 40 ∷ [])
    ∷ group_row 0 (60 ∷ 96 ∷ 43 ∷ 89 ∷ 116 ∷ [])
    ∷ group_row 0 (60 ∷ 19 ∷ 96 ∷ 43 ∷ 89 ∷ 116 ∷ [])
    ∷ group_row 0 (60 ∷ 43 ∷ 89 ∷ 111 ∷ 112 ∷ 116 ∷ [])
    ∷ group_row 0 (60 ∷ 19 ∷ 43 ∷ 89 ∷ [])
    ∷ group_row 0 (60 ∷ 19 ∷ [])
    ∷ group_row 0 (60 ∷ 101 ∷ 102 ∷ [])
    ∷ group_row 0 (60 ∷ 19 ∷ 40 ∷ [])
    ∷ group_row 0 (60 ∷ 65 ∷ 65 ∷ 65 ∷ 65 ∷ 65 ∷ 65 ∷ 65 ∷ [])
    ∷ group_row 0 (60 ∷ 19 ∷ 40 ∷ [])
    ∷ group_row 0 (
        60 ∷ 57 ∷ 1 ∷ 1 ∷ 1 ∷ 1 ∷ 3 ∷ 3 ∷ 3 ∷ 3 ∷ 6 ∷ 7 ∷ 7 ∷ 7 ∷ 7 ∷ 85 ∷ 127 ∷ 113 ∷ 65 ∷ 65 ∷ 65
        ∷ 65 ∷ 65 ∷ 117 ∷ 141 ∷ 152 ∷ [])
    ∷ group_row 0 (60 ∷ 19 ∷ 40 ∷ 57 ∷ 8 ∷ 51 ∷ 54 ∷ 65 ∷ 65 ∷ 114 ∷ 128 ∷ [])
    ∷ group_row 0 (
        57 ∷ 15 ∷ 15 ∷ 15 ∷ 15 ∷ 16 ∷ 16 ∷ 16 ∷ 16 ∷ 17 ∷ 18 ∷ 18 ∷ 18 ∷ 18 ∷ 87 ∷ 130 ∷ 1 ∷ 1 ∷ 1
        ∷ 1 ∷ 3 ∷ 3 ∷ 3 ∷ 3 ∷ 6 ∷ 7 ∷ 7 ∷ 7 ∷ 7 ∷ 85 ∷ 127 ∷ 9 ∷ 9 ∷ 9 ∷ 9 ∷ 10 ∷ 10 ∷ 10 ∷ 10 ∷ 13
        ∷ 14 ∷ 14 ∷ 14 ∷ 14 ∷ 86 ∷ 129 ∷ 49 ∷ 77 ∷ 65 ∷ 65 ∷ 65 ∷ 65 ∷ 65 ∷ 117 ∷ 125 ∷ 152 ∷ [])
    ∷ group_row 0 (19 ∷ 40 ∷ 8 ∷ 51 ∷ 54 ∷ 78 ∷ 114 ∷ 126 ∷ 128 ∷ [])
    ∷ group_row 0 ([])
    ∷ group_row 0 (19 ∷ 40 ∷ 51 ∷ 54 ∷ 79 ∷ [])
    ∷ group_row 0 (39 ∷ 83 ∷ 80 ∷ 99 ∷ 51 ∷ 54 ∷ 126 ∷ [])
    ∷ group_row 0 (19 ∷ 40 ∷ 12 ∷ 50 ∷ [])
    ∷ []

unfoldable pub ie_description_table : List IeDescription
unfolding first_rows last_rows message_rows
ie_description_table = first_rows ++ (last_rows ++ message_rows)
