-- ===== src/Poseidon2/Constants.antt =====
-- The constants of crates/air/src/poseidon2.rs.
use stark_v.Base.{ℕ, List, [], ◌∷◌}

-- The zero leaf stands at depth 30.
abbrev pub default_hashes : List ℕ
default_hashes =
    1780222652 ∷ 1930688578 ∷ 303118306 ∷ 97239919 ∷ 1601728603 ∷ 1416594325 ∷ 1406687439
    ∷ 1363155510 ∷ 1886023926 ∷ 1217577584 ∷ 378597429 ∷ 1556938811 ∷ 474559429 ∷ 423443822
    ∷ 662201576 ∷ 1930942541 ∷ 2117464092 ∷ 770448190 ∷ 1902191074 ∷ 1556109289 ∷ 776362864
    ∷ 1750512713 ∷ 1171333637 ∷ 1423473161 ∷ 372035035 ∷ 1457616685 ∷ 1303178213 ∷ 1563153690
    ∷ 1383248003 ∷ 1183174448 ∷ 0 ∷ []

abbrev pub external_round_consts : List (List ℕ)
external_round_consts =
    (1988864850 ∷ 1893772157 ∷ 1025928330 ∷ 1839472709 ∷ 1611656994 ∷ 1104858731 ∷ 1694088660
      ∷ 1564660990 ∷ 1991332205 ∷ 1875486487 ∷ 1890340790 ∷ 1658614 ∷ 582370530 ∷ 528029397
      ∷ 1196956642 ∷ 655401251 ∷ [])
    ∷ (1652877415 ∷ 26032894 ∷ 1576640243 ∷ 1277052539 ∷ 1450142396 ∷ 697623591 ∷ 1401580866
        ∷ 1568404175 ∷ 2145004971 ∷ 265835716 ∷ 1183985610 ∷ 1031234465 ∷ 436012490 ∷ 172735299
        ∷ 352802897 ∷ 1032863094 ∷ [])
    ∷ (757665783 ∷ 1082171296 ∷ 1507509996 ∷ 309929890 ∷ 1807683232 ∷ 43258895 ∷ 611592566
        ∷ 1854193793 ∷ 575164234 ∷ 894217817 ∷ 72613857 ∷ 1061659596 ∷ 8921166 ∷ 1617355017
        ∷ 998001536 ∷ 1800758877 ∷ [])
    ∷ (1002748055 ∷ 1935405944 ∷ 1351462722 ∷ 411368491 ∷ 1913975372 ∷ 1956167178 ∷ 442558016
        ∷ 855898408 ∷ 699687798 ∷ 1553382248 ∷ 1708169125 ∷ 490049183 ∷ 1251643415 ∷ 1193594742
        ∷ 880473871 ∷ 511174042 ∷ [])
    ∷ (1460209171 ∷ 530850056 ∷ 398192464 ∷ 536338716 ∷ 75179210 ∷ 1309934197 ∷ 1335920373
        ∷ 127611036 ∷ 291093831 ∷ 1832379621 ∷ 123571662 ∷ 303176864 ∷ 2137685056 ∷ 1759609530
        ∷ 1418928155 ∷ 71608334 ∷ [])
    ∷ (6616262 ∷ 1684515814 ∷ 1721194338 ∷ 720801691 ∷ 878392254 ∷ 460379263 ∷ 87930647 ∷ 940673483
        ∷ 1136203256 ∷ 551499412 ∷ 256220454 ∷ 2007034235 ∷ 796124985 ∷ 410436345 ∷ 1705042586
        ∷ 1286336446 ∷ [])
    ∷ (1522340456 ∷ 1295296352 ∷ 309794713 ∷ 1772145068 ∷ 956898901 ∷ 2137070800 ∷ 988829146
        ∷ 2059451359 ∷ 1846491684 ∷ 1105442551 ∷ 1236497773 ∷ 1452000568 ∷ 549485016 ∷ 385992492
        ∷ 1987107948 ∷ 1514377269 ∷ [])
    ∷ (2090065934 ∷ 1444920141 ∷ 293113979 ∷ 41120774 ∷ 855319793 ∷ 1663284746 ∷ 1789994008
        ∷ 1120509162 ∷ 358222743 ∷ 1406256810 ∷ 735183687 ∷ 664485235 ∷ 1331641456 ∷ 38121324
        ∷ 595810771 ∷ 1234594393 ∷ [])
    ∷ []

abbrev pub internal_round_consts : List ℕ
internal_round_consts =
    2139014335 ∷ 69309039 ∷ 1368974953 ∷ 886780232 ∷ 1130937085 ∷ 1718115455 ∷ 2027103386
    ∷ 1612216449 ∷ 1994053242 ∷ 110146615 ∷ 514413329 ∷ 1088763546 ∷ 955319292 ∷ 488794657 ∷ []

abbrev pub internal_matrix : List ℕ
internal_matrix =
    129501892 ∷ 1809435443 ∷ 1223573407 ∷ 1331944729 ∷ 415581875 ∷ 1526242955 ∷ 1341275624
    ∷ 1333308150 ∷ 1404946132 ∷ 1549369918 ∷ 709303410 ∷ 1284988537 ∷ 1490838740 ∷ 115945821
    ∷ 754131590 ∷ 800486749 ∷ []
